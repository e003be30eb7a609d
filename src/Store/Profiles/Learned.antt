-- ===== src/Store/Profiles/Learned.antt =====
-- What a profile should hold of some transactions, said of the transactions one by one, for the rows
-- of the statements in internal/repository/user_behavior_profile.sql.go.
use mathlib.Core.Path.{subst}
use fraud_detection_lite.Prelude.{
  ℕ, Every-mono, ltb→lt, ◌≤◌, ◌≡◌, ◌∙◌, refl, sym, ap, Bool, true, false, ◌&&◌, ◌||◌, not, ◌⊎◌, inl,
  inr, arith, List, [], ◌∷◌, Every, keep, ltb, String, str_eq, str_eq_iff, if◌then◌else◌,
}
use fraud_detection_lite.Prelude.Int.{ℤ}
use fraud_detection_lite.Float.Ops.{Float64, from_ℤ}
use fraud_detection_lite.Time.{Time}
use fraud_detection_lite.Specs.Error.{ok, >>=-ok}
use fraud_detection_lite.Repository.Models.{
  Transaction, TransactionDecision, allow, flag, block, mfa_required, Timestamp, Float8, Int4,
}
use fraud_detection_lite.Repository.Queries.{GetUserProfileByUserIdRow}
use fraud_detection_lite.Store.Tables.{Engine, cast_integer, or_zero, largest}
use fraud_detection_lite.Store.Profiles.{
  is_allowed, allowed_of, amounts, Amounts, amounts_of, distinct_modes, uses_mode, extreme,
  float_of, int_of, earlier, later,
}
use fraud_detection_lite.Store.Profiles.Rows.{IsRowOf}

abbrev pub if_approved : TransactionDecision → Transaction → List Transaction → List Transaction
if_approved allow t rest = t ∷ rest
if_approved flag t rest = t ∷ rest
if_approved mfa_required t rest = rest
if_approved block t rest = rest

-- The transactions that were allowed or flagged.
abbrev pub approved : List Transaction → List Transaction
approved [] = []
approved (t ∷ ts) = if_approved t.decision t (approved ts)

abbrev pub prices : List Transaction → List Float64
prices [] = []
prices (t ∷ ts) = t.amount ∷ prices ts

-- Whether one of the transactions was paid that way.
abbrev pub pays_by : String → List Transaction → Bool
pays_by m [] = false
pays_by m (t ∷ ts) = str_eq t.mode m || pays_by m ts

abbrev pub is_among : String → List String → Bool
is_among m [] = false
is_among m (x ∷ xs) = str_eq x m || is_among m xs

-- A time at which one of the transactions was made.
abbrev pub IsTimeOf : Time → List Transaction → Type 0
IsTimeOf time [] = ⊥
IsTimeOf time (t ∷ ts) = (t.created_at.time ≡ time) ⊎ IsTimeOf time ts

-- A null for no transaction, and else the time of one that is in the relation to those of all.
abbrev pub IsExtreme : (Time → Time → Type 0) → List Transaction → Timestamp → Type 0
IsExtreme R [] stamp = stamp.valid ≡ false
IsExtreme R (t ∷ ts) stamp =
    (stamp.valid ≡ true)
    × IsTimeOf stamp.time (t ∷ ts)
    × Every (λ (x : Transaction). R stamp.time x.created_at.time) (t ∷ ts)

abbrev pub IsFirst : Engine → List Transaction → Timestamp → Type 0
IsFirst engine ts stamp = IsExtreme (λ a b. engine.wall a ≤ engine.wall b) ts stamp

abbrev pub IsLast : Engine → List Transaction → Timestamp → Type 0
IsLast engine ts stamp = IsExtreme (λ a b. engine.wall b ≤ engine.wall a) ts stamp

abbrev pub HoldsFloat : Float64 → Float8 → Type 0
HoldsFloat x held =
    (a : ℤ) × (cast_integer x ≡ ok a) × (held ≡ record { float64 = from_ℤ a; valid = true })

abbrev pub HoldsInt : Float64 → Int4 → Type 0
HoldsInt x held = (a : ℤ) × (cast_integer x ≡ ok a) × (held ≡ record { int32 = a; valid = true })

-- The average and the deviation of the approved amounts and the largest of all, each cast to an INTEGER
-- with 0 for none, the ways to pay of the approved ones, and the first and the last approved time.
pub record IsLearned (engine : Engine) (u : ℤ) (ts : List Transaction)
    (row : GetUserProfileByUserIdRow) : Type 0 where
  pub owner : row.user_id ≡ u
  pub average :
      HoldsFloat (or_zero (engine.average (prices (approved ts)))) row.average_transaction_amount
  pub deviation :
      HoldsInt (or_zero (engine.deviation (prices (approved ts)))) row.std_dev_transaction_amount
  pub maximum : HoldsFloat (or_zero (largest (prices ts))) row.max_transaction_amount_seen
  pub modes :
      (m : String)
      → is_among m row.registered_payment_modes
        ≡ (is_among m ("UPI" ∷ "CARD" ∷ "NETBANKING" ∷ []) && pays_by m (approved ts))
  pub start : IsFirst engine (approved ts) row.usual_transaction_start_hour
  pub end : IsLast engine (approved ts) row.usual_transaction_end_hour

if_approved-is_allowed :
    (d : TransactionDecision) (t : Transaction) (kept rest : List Transaction)
    → kept ≡ rest
    → (if is_allowed d then t ∷ kept else kept) ≡ if_approved d t rest
if_approved-is_allowed allow t kept rest e = ap (λ xs. t ∷ xs) e
if_approved-is_allowed flag t kept rest e = ap (λ xs. t ∷ xs) e
if_approved-is_allowed block t kept rest e = e
if_approved-is_allowed mfa_required t kept rest e = e

pub allowed_of-approved : (ts : List Transaction) → allowed_of ts ≡ approved ts
allowed_of-approved [] = refl
allowed_of-approved (t ∷ ts) =
    if_approved-is_allowed t.decision t (allowed_of ts) (approved ts) (allowed_of-approved ts)

amounts-prices : (ts : List Transaction) → amounts ts ≡ prices ts
amounts-prices [] = refl
amounts-prices (t ∷ ts) = ap (λ xs. t.amount ∷ xs) (amounts-prices ts)

if_or : (b c d : Bool) → c ≡ d → (if b then true else c) ≡ (b || d)
if_or true c d e = refl
if_or false c d e = e

uses_mode-pays_by : (m : String) (ts : List Transaction) → uses_mode m ts ≡ pays_by m ts
uses_mode-pays_by m [] = refl
uses_mode-pays_by m (t ∷ ts) =
    if_or (str_eq t.mode m) (uses_mode m ts) (pays_by m ts) (uses_mode-pays_by m ts)

test-same : (test : String → Bool) (x m : String) → str_eq x m ≡ true → test x ≡ test m
test-same test x m e = ap test ((str_eq_iff x m).0 e)

is_among-one :
    (m x : String) (kept : List String) (b s a c : Bool)
    → str_eq x m ≡ s
    → (s ≡ true → b ≡ c)
    → is_among m kept ≡ (a && c)
    → is_among m (if b then x ∷ kept else kept) ≡ ((s || a) && c)
is_among-one m x kept true true a c e f h = ap (λ s. s || is_among m kept) e ∙ f refl
is_among-one m x kept true false a c e f h = ap (λ s. s || is_among m kept) e ∙ h
is_among-one m x kept false true a c e f h = h ∙ dropped a c (f refl)
  where
    dropped : (a c : Bool) → false ≡ c → (a && c) ≡ c
    dropped a c e = ground (arith, e)
is_among-one m x kept false false a c e f h = h

-- Those that a test keeps.
is_among-keep :
    (test : String → Bool) (m : String) (xs : List String)
    → is_among m (keep test xs) ≡ (is_among m xs && test m)
is_among-keep test m [] = refl
is_among-keep test m (x ∷ xs) =
    is_among-one m x (keep test xs) (test x) (str_eq x m) (is_among m xs) (test m) refl
      (test-same test x m) (is_among-keep test m xs)

distinct_modes-lists :
    (ts : List Transaction) (m : String)
    → is_among m (distinct_modes ts)
      ≡ (is_among m ("UPI" ∷ "CARD" ∷ "NETBANKING" ∷ []) && pays_by m ts)
unfolding distinct_modes
distinct_modes-lists ts m =
    is_among-keep (λ k. uses_mode k ts) m ("UPI" ∷ "CARD" ∷ "NETBANKING" ∷ [])
    ∙ ap (λ b. is_among m ("UPI" ∷ "CARD" ∷ "NETBANKING" ∷ []) && b) (uses_mode-pays_by m ts)

module _ (prefers : Time → Time → Bool) (R : Time → Time → Type 0) (self : (a : Time) → R a a)
    (trans : (a b c : Time) → R a b → R b c → R a c)
    (preferred : (a b : Time) → prefers a b ≡ true → R a b)
    (kept : (a b : Time) → prefers a b ≡ false → R b a) where
  chosen-IsExtreme :
      (t s : Transaction) (ts : List Transaction) (stamp : Timestamp) (valid first : Bool)
      → stamp.valid ≡ valid
      → prefers t.created_at.time stamp.time ≡ first
      → IsExtreme R (s ∷ ts) stamp
      → IsExtreme R
          (t ∷ s ∷ ts)
          (if not valid || first then record { time = t.created_at.time; valid = true } else stamp)
  chosen-IsExtreme t s ts stamp false first v f (valid, time, all) = absurd (never (sym valid ∙ v))
    where
      never : true ≡ false → ⊥
      never e = cc
  chosen-IsExtreme t s ts stamp true false v f (valid, time, all) =
      (valid, inr time, (kept t.created_at.time stamp.time f, all))
  chosen-IsExtreme t s ts stamp true true v f (valid, time, all) = (
    refl,
    inl refl,
    (
      self t.created_at.time,
      Every-mono (λ (x : Transaction). R stamp.time x.created_at.time)
          (λ (x : Transaction). R t.created_at.time x.created_at.time) (s ∷ ts)
          (λ x h. trans _ _ _ (preferred t.created_at.time stamp.time f) h) all,
    ),
  )

  extreme-IsExtreme : (ts : List Transaction) → IsExtreme R ts (extreme prefers ts)
  unfolding extreme
  extreme-IsExtreme [] = refl
  extreme-IsExtreme (t ∷ []) = (refl, inl refl, (self t.created_at.time, tt))
  extreme-IsExtreme (t ∷ s ∷ ts) =
      let stamp = extreme prefers (s ∷ ts) in
      chosen-IsExtreme t s ts stamp stamp.valid (prefers t.created_at.time stamp.time) refl refl
        (extreme-IsExtreme (s ∷ ts))

not_less : (a b : ℕ) → ltb a b ≡ false → b ≤ a
not_less a b h = ground (arith, h)

module _ (engine : Engine) where
  extreme-IsFirst : (ts : List Transaction) → IsFirst engine ts (extreme (earlier engine) ts)
  extreme-IsFirst =
      extreme-IsExtreme (earlier engine) (λ a b. engine.wall a ≤ engine.wall b) (λ a. omega arith)
        (λ a b c h k. omega (arith, h, k)) (λ a b h. omega (arith, ltb→lt _ _ h))
        (λ a b h. not_less _ _ h)

  extreme-IsLast : (ts : List Transaction) → IsLast engine ts (extreme (later engine) ts)
  extreme-IsLast =
      extreme-IsExtreme (later engine) (λ a b. engine.wall b ≤ engine.wall a) (λ a. omega arith)
        (λ a b c h k. omega (arith, h, k)) (λ a b h. omega (arith, ltb→lt _ _ h))
        (λ a b h. not_less _ _ h)

  -- The rows of the statements.
  pub IsRowOf-IsLearned :
      (u : ℤ) (ts : List Transaction) (row : GetUserProfileByUserIdRow)
      → IsRowOf engine u ts row
      → IsLearned engine u ts row
  unfolding amounts_of
  IsRowOf-IsLearned u ts row of =
      let (average, e1, h1) =
        >>=-ok (cast_integer (or_zero (engine.average (amounts (allowed_of ts))))) _ of.amounts
          of.computed in
      let (deviation, e2, h2) =
        >>=-ok (cast_integer (or_zero (engine.deviation (amounts (allowed_of ts))))) _ of.amounts
          h1 in
      let (maximum, e3, h3) =
        >>=-ok (cast_integer (or_zero (largest (amounts ts)))) _ of.amounts h2 in
      let made = amounts_path h3 in
      let same = allowed_of-approved ts in
      let paid = ap amounts same ∙ amounts-prices (approved ts) in
      record {
        owner = of.owner;
        average = (
          average,
          ap (λ xs. cast_integer (or_zero (engine.average xs))) (sym paid) ∙ e1,
          of.average ∙ ap (λ (a : Amounts). float_of a.average) (sym made),
        );
        deviation = (
          deviation,
          ap (λ xs. cast_integer (or_zero (engine.deviation xs))) (sym paid) ∙ e2,
          of.deviation ∙ ap (λ (a : Amounts). int_of a.deviation) (sym made),
        );
        maximum = (
          maximum,
          ap (λ xs. cast_integer (or_zero (largest xs))) (sym (amounts-prices ts)) ∙ e3,
          of.maximum ∙ ap (λ (a : Amounts). float_of a.maximum) (sym made),
        );
        modes = λ m.
            ap (is_among m) (of.modes ∙ ap distinct_modes same)
            ∙ distinct_modes-lists (approved ts) m;
        start =
            subst (IsFirst engine (approved ts))
              (sym (of.start ∙ ap (extreme (earlier engine)) same)) (extreme-IsFirst (approved ts));
        end =
            subst (IsLast engine (approved ts)) (sym (of.end ∙ ap (extreme (later engine)) same))
              (extreme-IsLast (approved ts));
      }
    where
      amounts_path : {x y : Amounts} → ok x ≡ ok y → x ≡ y
      amounts_path p = cc
