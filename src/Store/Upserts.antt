-- ===== src/Store/Upserts.antt =====
-- internal/repository/user_behavior_profile.sql.go: the upserts, which nothing runs.
use Prim.Native.Nat.{min}
use fraud_detection_lite.Prelude.{
  ◌≡◌, ap, Bool, true, false, not, ◌&&◌, List, [], ◌∷◌, length, if◌then◌else◌,
}
use fraud_detection_lite.Prelude.Int.{ℤ, eqb_ℤ}
use fraud_detection_lite.Time.{Time}
use fraud_detection_lite.Specs.Error.{Result, ok, err, other, ◌>>=◌}
use fraud_detection_lite.Repository.Models.{Transaction, Float8, Int4, Timestamp, Mode}
use fraud_detection_lite.Repository.Queries.{GetUserProfileByUserIdRow}
use fraud_detection_lite.Service.Transaction.{null_float, null_int, null_timestamp}
use fraud_detection_lite.Store.Tables.{World, Engine, is_mode, in_integer}
use fraud_detection_lite.Store.Transactions.{of_user, has_user, or_no_rows}
use fraud_detection_lite.Store.Profiles.{
  allowed_of, amounts_of, float_of, int_of, distinct_modes, extreme, earlier, later, put_profile,
  get_user_profile_by_user_id, before_today, store_row,
}
use fraud_detection_lite.Store.Profiles.Rows.{
  find_profile-put_profile, find_profile-put_profile_other,
}

module _ (engine : Engine) where
  -- The row that UpsertUserProfileByUserID computes, of the transactions before today.
  unfoldable pub upserted_row : ℤ → List Transaction → Time → Result GetUserProfileByUserIdRow
  unfolding amounts_of
  upserted_row u ts now = do
    a ← amounts_of engine ts
    daily ← in_integer (min (length (allowed_of ts)) 50) false
    total ← in_integer (length ts) false
    allowed ← in_integer (length (allowed_of ts)) false
    ok (record {
      user_id = u;
      average_transaction_amount = float_of a.average;
      std_dev_transaction_amount = int_of a.deviation;
      max_transaction_amount_seen = float_of a.maximum;
      average_number_of_transactions_per_day = int_of daily;
      registered_payment_modes = distinct_modes (allowed_of ts);
      usual_transaction_start_hour = extreme (earlier engine) (allowed_of ts);
      usual_transaction_end_hour = extreme (later engine) (allowed_of ts);
      total_transactions = total;
      allowed_transactions = allowed;
      updated_at = record { time = now; valid = true };
    })

  -- UpsertUserProfileByUserID
  unfoldable pub upsert_user_profile_by_user_id : ℤ → World → Result (Unit {0}) × World
  unfolding upserted_row
  upsert_user_profile_by_user_id u w =
      let ts = before_today engine w.clock (of_user u w.transactions) in
      let stored = store_row engine (upserted_row u ts w.clock) w in
      if has_user u w.users then stored else (ok tt, w)

pub record UpsertUserProfileFromProfileParams : Type 0 where
  pub user_id : ℤ
  pub average_transaction_amount : Float8
  pub std_dev_transaction_amount : Int4
  pub max_transaction_amount_seen : Float8
  pub average_number_of_transactions_per_day : Int4
  pub registered_payment_modes : List Mode
  pub usual_transaction_start_hour : Timestamp
  pub usual_transaction_end_hour : Timestamp
  pub total_transactions : ℤ
  pub allowed_transactions : ℤ

-- What is read of a nullable column after it was written: NULL has the zero value.
abbrev pub kept_float : Float8 → Float8
kept_float x = if x.valid then x else null_float

abbrev pub kept_int : Int4 → Int4
kept_int x = if x.valid then x else null_int

abbrev pub kept_time : Timestamp → Timestamp
kept_time x = if x.valid then x else null_timestamp

abbrev pub all_modes : List Mode → Bool
all_modes [] = true
all_modes (m ∷ ms) = is_mode m && all_modes ms

abbrev pub given_row : UpsertUserProfileFromProfileParams → Time → GetUserProfileByUserIdRow
given_row p now = record {
  user_id = p.user_id;
  average_transaction_amount = kept_float p.average_transaction_amount;
  std_dev_transaction_amount = kept_int p.std_dev_transaction_amount;
  max_transaction_amount_seen = kept_float p.max_transaction_amount_seen;
  average_number_of_transactions_per_day = kept_int p.average_number_of_transactions_per_day;
  registered_payment_modes = p.registered_payment_modes;
  usual_transaction_start_hour = kept_time p.usual_transaction_start_hour;
  usual_transaction_end_hour = kept_time p.usual_transaction_end_hour;
  total_transactions = p.total_transactions;
  allowed_transactions = p.allowed_transactions;
  updated_at = record { time = now; valid = true };
}

-- UpsertUserProfileFromProfile, of a slice of modes that is not nil.
unfoldable pub upsert_user_profile_from_profile :
    UpsertUserProfileFromProfileParams → World → Result (Unit {0}) × World
upsert_user_profile_from_profile p w =
    if not (all_modes p.registered_payment_modes)
    then (err (other "invalid input value for enum mode"), w)
    else if not (has_user p.user_id w.users)
    then (err (other "violates foreign key constraint"), w)
    else (ok tt, record w { profiles = put_profile (given_row p w.clock) w.profiles })

-- For a user that exists and modes of the enumeration, the profile that is read after
-- UpsertUserProfileFromProfile is the one given, with the time of the statement and with the zero
-- value for NULL, and the profile that is read for any other user is the one from before.
upsert_user_profile_from_profile-found :
    (p : UpsertUserProfileFromProfileParams) (w : World) (u : ℤ)
    → has_user p.user_id w.users ≡ true
    → all_modes p.registered_payment_modes ≡ true
    → eqb_ℤ p.user_id u ≡ false
    → let w' = (upsert_user_profile_from_profile p w).1 in
      (get_user_profile_by_user_id p.user_id w' ≡ (ok (given_row p w.clock), w'))
      × ((get_user_profile_by_user_id u w').0 ≡ (get_user_profile_by_user_id u w).0)
unfolding upsert_user_profile_from_profile get_user_profile_by_user_id
upsert_user_profile_from_profile-found p w u known modes apart =
    let row = given_row p w.clock in
    let put = record w { profiles = put_profile row w.profiles } in
    rw (modes, known)
      (
        ap (λ found. (or_no_rows found, put)) (find_profile-put_profile row w.profiles),
        ap or_no_rows (find_profile-put_profile_other u row w.profiles apart),
      )
