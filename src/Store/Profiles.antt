-- ===== src/Store/Profiles.antt =====
-- internal/repository/user_behavior_profile.sql.go: the statements on profiles.
pub mod Rows
pub mod Maximum
pub mod Learned
use fraud_detection_lite.Prelude.{
  ℕ, zero, suc, ◌+◌, ◌-◌, ◌*◌, ◌/◌, ◌<◌, ◌^◌, Bool, true, false, not, ◌||◌, Option, none, some,
  List, [], ◌∷◌, ◌++◌, map, length, keep, first_of, ltb, str_eq, if◌then◌else◌, String,
}
use Prim.Native.Nat.{min, max}
use fraud_detection_lite.Prelude.Int.{ℤ, pos, eqb_ℤ}
use fraud_detection_lite.Float.Ops.{Float64, from_ℤ, div, min_float}
use fraud_detection_lite.Constants.{lit}
use fraud_detection_lite.Time.{Time, zero_time}
use fraud_detection_lite.Specs.Error.{Error, Result, ok, err, ◌>>=◌}
use fraud_detection_lite.Repository.Models.{
  Transaction, TransactionDecision, allow, flag, block, mfa_required, Float8, Int4, Timestamp, Mode,
}
use fraud_detection_lite.Repository.Queries.{GetUserProfileByUserIdRow}
use fraud_detection_lite.Store.Tables.{
  World, Engine, cast_integer, in_integer, or_zero, largest, day, no_rows,
}
use fraud_detection_lite.Store.Transactions.{of_user, has_user, or_no_rows}

-- decision IN ('ALLOW', 'FLAG')
abbrev pub is_allowed : TransactionDecision → Bool
is_allowed allow = true
is_allowed flag = true
is_allowed block = false
is_allowed mfa_required = false

-- FILTER (WHERE t.decision IN ('ALLOW', 'FLAG'))
abbrev pub allowed_of : List Transaction → List Transaction
allowed_of ts = keep (λ (t : Transaction). is_allowed t.decision) ts

abbrev pub amounts : List Transaction → List Float64
amounts ts = map (λ (t : Transaction). t.amount) ts

abbrev pub uses_mode : String → List Transaction → Bool
uses_mode m [] = false
uses_mode m (t ∷ ts) = if str_eq t.mode m then true else uses_mode m ts

-- ARRAY_AGG(DISTINCT mode), in the order of the enumeration.
unfoldable pub distinct_modes : List Transaction → List String
distinct_modes ts = keep (λ m. uses_mode m ts) ("UPI" ∷ "CARD" ∷ "NETBANKING" ∷ [])

abbrev pub null_time : Timestamp
null_time = record { time = zero_time; valid = false }

-- MIN and MAX of created_at: `prefers a b` tells whether a replaces b.
abbrev pub better : (Time → Time → Bool) → Transaction → Timestamp → Timestamp
better prefers t best =
    if not best.valid || prefers t.created_at.time best.time
    then record { time = t.created_at.time; valid = true }
    else best

unfoldable pub extreme : (Time → Time → Bool) → List Transaction → Timestamp
extreme prefers [] = null_time
extreme prefers (t ∷ ts) = better prefers t (extreme prefers ts)

-- The three amounts of a profile, as INTEGERs.
pub record Amounts : Type 0 where
  pub average : ℤ
  pub deviation : ℤ
  pub maximum : ℤ

abbrev pub float_of : ℤ → Float8
float_of n = record { float64 = from_ℤ n; valid = true }

abbrev pub int_of : ℤ → Int4
int_of n = record { int32 = n; valid = true }

-- ON CONFLICT (user_id) DO UPDATE
unfoldable pub put_profile :
    GetUserProfileByUserIdRow → List GetUserProfileByUserIdRow → List GetUserProfileByUserIdRow
put_profile row [] = row ∷ []
put_profile row (p ∷ ps) =
    let later = put_profile row ps in if eqb_ℤ p.user_id row.user_id then row ∷ ps else p ∷ later

abbrev pub find_profile : ℤ → List GetUserProfileByUserIdRow → Option GetUserProfileByUserIdRow
find_profile u ps = first_of (λ (p : GetUserProfileByUserIdRow). eqb_ℤ p.user_id u) ps

-- GetUserProfileByUserID
unfoldable pub get_user_profile_by_user_id : ℤ → World → Result GetUserProfileByUserIdRow × World
get_user_profile_by_user_id u w = (or_no_rows (find_profile u w.profiles), w)

module _ (engine : Engine) where
  abbrev pub earlier : Time → Time → Bool
  earlier a b = ltb (engine.wall a) (engine.wall b)

  abbrev pub later : Time → Time → Bool
  later a b = ltb (engine.wall b) (engine.wall a)

  -- AVG, STDDEV and MAX of the amounts, with COALESCE and the casts.
  unfoldable pub amounts_of : List Transaction → Result Amounts
  amounts_of ts = do
    average ← cast_integer (or_zero (engine.average (amounts (allowed_of ts))))
    deviation ← cast_integer (or_zero (engine.deviation (amounts (allowed_of ts))))
    maximum ← cast_integer (or_zero (largest (amounts ts)))
    ok (record { average = average; deviation = deviation; maximum = maximum })

  -- GREATEST(DATE_PART('day', NOW() - MIN(t.created_at)), 1)
  abbrev pub days_since : Timestamp → Time → ℕ
  days_since first now =
      if first.valid then max ((engine.wall now - engine.wall first.time) / 86400) 1 else 1

  -- LEAST(COUNT(*) FILTER (…) / …, 50)::INTEGER
  unfoldable pub per_day : List Transaction → Time → Result ℤ
  per_day ts now = cast_integer (
      min_float
        (div (from_ℤ (pos (length (allowed_of ts))))
          (from_ℤ (pos (days_since (extreme earlier ts) now))))
        (lit 50))

  -- The row that RecalculateUserProfile computes from the transactions of the user.
  unfoldable pub profile_row : ℤ → List Transaction → Time → Result GetUserProfileByUserIdRow
  unfolding amounts_of per_day
  profile_row u ts now = do
    a ← amounts_of ts
    daily ← per_day ts now
    total ← in_integer (length ts) false
    allowed ← in_integer (length (allowed_of ts)) false
    ok (record {
      user_id = u;
      average_transaction_amount = float_of a.average;
      std_dev_transaction_amount = int_of a.deviation;
      max_transaction_amount_seen = float_of a.maximum;
      average_number_of_transactions_per_day = int_of daily;
      registered_payment_modes = distinct_modes (allowed_of ts);
      usual_transaction_start_hour = extreme earlier (allowed_of ts);
      usual_transaction_end_hour = extreme later (allowed_of ts);
      total_transactions = total;
      allowed_transactions = allowed;
      updated_at = record { time = now; valid = true };
    })

  -- A statement that fails changes nothing.
  abbrev pub store_row : Result GetUserProfileByUserIdRow → World → Result (Unit {0}) × World
  store_row (ok row) w = (ok tt, record w { profiles = put_profile row w.profiles })
  store_row (err e) w = (err e, w)

  -- RecalculateUserProfile, which finds nothing to insert for a user that does not exist.
  unfoldable pub recalculate_user_profile : ℤ → World → Result (Unit {0}) × World
  unfolding profile_row
  recalculate_user_profile u w =
      let stored = store_row (profile_row u (of_user u w.transactions) w.clock) w in
      if has_user u w.users then stored else (ok tt, w)

  -- WHERE t.created_at < CURRENT_DATE
  abbrev pub before_today : Time → List Transaction → List Transaction
  before_today now ts =
      keep
        (λ (t : Transaction). ltb (engine.wall t.created_at.time) (day (engine.wall now) * 86400))
        ts

  -- The users of the groups, each once.
  abbrev pub is_listed : ℤ → List ℤ → Bool
  is_listed u [] = false
  is_listed u (v ∷ vs) = if eqb_ℤ v u then true else is_listed u vs

  abbrev pub grouped_users : List Transaction → List ℤ
  grouped_users [] = []
  grouped_users (t ∷ ts) =
      let us = grouped_users ts in if is_listed t.user_id us then us else t.user_id ∷ us

  -- The counts, which the statement does not set: those of the row in place, or the defaults.
  abbrev pub total_of : Option GetUserProfileByUserIdRow → ℤ
  total_of (some p) = p.total_transactions
  total_of none = pos 0

  abbrev pub allowed_count_of : Option GetUserProfileByUserIdRow → ℤ
  allowed_count_of (some p) = p.allowed_transactions
  allowed_count_of none = pos 0

  -- The row that RebuildAllUserProfiles computes for one group.
  unfoldable pub rebuilt_row :
      ℤ
      → List Transaction
      → Time
      → Option GetUserProfileByUserIdRow
      → Result GetUserProfileByUserIdRow
  unfolding amounts_of
  rebuilt_row u ts now old = do
    a ← amounts_of ts
    daily ← in_integer (min (length (allowed_of ts)) 50) false
    ok (record {
      user_id = u;
      average_transaction_amount = float_of a.average;
      std_dev_transaction_amount = int_of a.deviation;
      max_transaction_amount_seen = float_of a.maximum;
      average_number_of_transactions_per_day = int_of daily;
      registered_payment_modes = distinct_modes (allowed_of ts);
      usual_transaction_start_hour = extreme earlier (allowed_of ts);
      usual_transaction_end_hour = extreme later (allowed_of ts);
      total_transactions = total_of old;
      allowed_transactions = allowed_count_of old;
      updated_at = record { time = now; valid = true };
    })

  -- The rows of the groups, put in place one after the other.
  unfoldable pub rebuild_users :
      List ℤ
      → List Transaction
      → Time
      → List GetUserProfileByUserIdRow
      → Result (List GetUserProfileByUserIdRow)
  unfolding rebuilt_row
  rebuild_users [] ts now ps = ok ps
  rebuild_users (u ∷ us) ts now ps = do
    row ← rebuilt_row u (of_user u ts) now (find_profile u ps)
    rebuild_users us ts now (put_profile row ps)

  abbrev pub store_rows :
      Result (List GetUserProfileByUserIdRow) → World → Result (Unit {0}) × World
  store_rows (ok ps) w = (ok tt, record w { profiles = ps })
  store_rows (err e) w = (err e, w)

  -- RebuildAllUserProfiles
  unfoldable pub rebuild_all_user_profiles : World → Result (Unit {0}) × World
  unfolding rebuild_users
  rebuild_all_user_profiles w =
      let ts = before_today w.clock w.transactions in
      store_rows (rebuild_users (grouped_users ts) ts w.clock w.profiles) w

  -- ProfileUpdater.updateAllProfiles, the job of each midnight.
  unfoldable pub update_all_profiles : World → Result (Unit {0}) × World
  unfolding rebuild_all_user_profiles
  update_all_profiles w = rebuild_all_user_profiles w
