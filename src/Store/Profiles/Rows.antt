-- ===== src/Store/Profiles/Rows.antt =====
-- The rows that the statements on profiles compute, and where they put them.
use Prim.Native.Nat.{min}
use mathlib.Core.Path.{subst}
use fraud_detection_lite.Prelude.{
  ℕ, ◌^◌, ◌≡◌, ◌∙◌, refl, sym, ap, Bool, true, false, Bool-cases, inl, inr, arith, List, [], ◌∷◌,
  Every, length, ltb, Option, some, if◌then◌else◌,
}
use fraud_detection_lite.Prelude.Int.{ℤ, pos, eqb_ℤ}
use fraud_detection_lite.Time.{Time}
use fraud_detection_lite.Specs.Error.{ok, err, >>=-ok}
use fraud_detection_lite.Repository.Models.{Transaction}
use fraud_detection_lite.Repository.Queries.{GetUserProfileByUserIdRow}
use fraud_detection_lite.Store.Tables.{Engine, in_integer, out_of_range}
use fraud_detection_lite.Store.Profiles.{
  allowed_of, Amounts, amounts_of, float_of, int_of, per_day, distinct_modes, extreme, earlier,
  later, profile_row, put_profile, find_profile, rebuilt_row, total_of, allowed_count_of,
}

-- A row of the amounts, the modes and the hours of some transactions.
pub record IsRowOf (engine : Engine) (u : ℤ) (ts : List Transaction)
    (row : GetUserProfileByUserIdRow) : Type 0 where
  pub owner : row.user_id ≡ u
  pub amounts : Amounts
  pub computed : amounts_of engine ts ≡ ok amounts
  pub average : row.average_transaction_amount ≡ float_of amounts.average
  pub deviation : row.std_dev_transaction_amount ≡ int_of amounts.deviation
  pub maximum : row.max_transaction_amount_seen ≡ float_of amounts.maximum
  pub modes : row.registered_payment_modes ≡ distinct_modes (allowed_of ts)
  pub start : row.usual_transaction_start_hour ≡ extreme (earlier engine) (allowed_of ts)
  pub end : row.usual_transaction_end_hour ≡ extreme (later engine) (allowed_of ts)

in_integer-ok : (n : ℕ) (a : ℤ) → in_integer n false ≡ ok a → a ≡ pos n
in_integer-ok n a h = elim (Bool-cases (ltb n (2 ^ 31))) [
  | inl fits ↦ value (sym h ∙ ap (λ b. if b then ok (pos n) else err out_of_range) fits)
  | inr large ↦ never (sym h ∙ ap (λ b. if b then ok (pos n) else err out_of_range) large)
]
  where
    value : ok a ≡ ok (pos n) → a ≡ pos n
    value e = cc

    never : ok a ≡ err out_of_range → a ≡ pos n
    never e = cc

row_path : (x y : GetUserProfileByUserIdRow) → ok x ≡ ok y → x ≡ y
row_path x y e = cc

module _ (engine : Engine) (u : ℤ) (ts : List Transaction) (now : Time)
    (row : GetUserProfileByUserIdRow) where
  pub profile_row-IsRowOf :
      profile_row engine u ts now ≡ ok row
      → IsRowOf engine u ts row
        × (row.total_transactions ≡ pos (length ts))
        × (row.allowed_transactions ≡ pos (length (allowed_of ts)))
  unfolding profile_row
  profile_row-IsRowOf h =
      let (a, computed, h1) = >>=-ok (amounts_of engine ts) _ row h in
      let (daily, d, h2) = >>=-ok (per_day engine ts now) _ row h1 in
      let (total, t, h3) = >>=-ok (in_integer (length ts) false) _ row h2 in
      let (allowed, l, h4) = >>=-ok (in_integer (length (allowed_of ts)) false) _ row h3 in
      subst
        (λ r.
          IsRowOf engine u ts r
          × (r.total_transactions ≡ pos (length ts))
          × (r.allowed_transactions ≡ pos (length (allowed_of ts))))
        (row_path _ row h4)
        (
          record {
            owner = refl;
            amounts = a;
            computed = computed;
            average = refl;
            deviation = refl;
            maximum = refl;
            modes = refl;
            start = refl;
            end = refl;
          },
          in_integer-ok (length ts) total t,
          in_integer-ok (length (allowed_of ts)) allowed l,
        )

  pub rebuilt_row-IsRowOf :
      (old : Option GetUserProfileByUserIdRow)
      → rebuilt_row engine u ts now old ≡ ok row
      → IsRowOf engine u ts row
        × (row.total_transactions ≡ total_of engine old)
        × (row.allowed_transactions ≡ allowed_count_of engine old)
  unfolding rebuilt_row
  rebuilt_row-IsRowOf old h =
      let (a, computed, h1) = >>=-ok (amounts_of engine ts) _ row h in
      let (daily, d, h2) = >>=-ok (in_integer (min (length (allowed_of ts)) 50) false) _ row h1 in
      subst
        (λ r.
          IsRowOf engine u ts r
          × (r.total_transactions ≡ total_of engine old)
          × (r.allowed_transactions ≡ allowed_count_of engine old))
        (row_path _ row h2)
        (
          record {
            owner = refl;
            amounts = a;
            computed = computed;
            average = refl;
            deviation = refl;
            maximum = refl;
            modes = refl;
            start = refl;
            end = refl;
          },
          refl,
          refl,
        )

-- What holds of a row and of every profile in place holds after the row is put.
pub Every-put_profile {ℓ} :
    (P : GetUserProfileByUserIdRow → Type ℓ) (row : GetUserProfileByUserIdRow)
    (ps : List GetUserProfileByUserIdRow)
    → P row
    → Every P ps
    → Every P (put_profile row ps)
unfolding put_profile
Every-put_profile P row [] h k = (h, tt)
Every-put_profile P row (p ∷ ps) h (hp, k) = elim (Bool-cases (eqb_ℤ p.user_id row.user_id)) [
  | inl same ↦ rw same (h, k)
  | inr other ↦ rw other (hp, Every-put_profile P row ps h k)
]

abbrev pick :
    GetUserProfileByUserIdRow
    → Option GetUserProfileByUserIdRow
    → Bool
    → Option GetUserProfileByUserIdRow
pick p later b = if b then some p else later

-- A profile that is found is one of those in place.
pub find_profile-Every {ℓ} :
    (P : GetUserProfileByUserIdRow → Type ℓ) (u : ℤ) (ps : List GetUserProfileByUserIdRow)
    (row : GetUserProfileByUserIdRow)
    → Every P ps
    → find_profile u ps ≡ some row
    → P row
find_profile-Every P u [] row k h = cc
find_profile-Every P u (p ∷ ps) row (hp, k) h = elim (Bool-cases (eqb_ℤ p.user_id u)) [
  | inl same ↦ subst P (here (sym (ap (pick p (find_profile u ps)) same) ∙ h)) hp
  | inr other ↦ find_profile-Every P u ps row k (sym (ap (pick p (find_profile u ps)) other) ∙ h)
]
  where
    here : some p ≡ some row → p ≡ row
    here e = cc

-- A profile that was put is found.
pub find_profile-put_profile :
    (row : GetUserProfileByUserIdRow) (ps : List GetUserProfileByUserIdRow)
    → find_profile row.user_id (put_profile row ps) ≡ some row
unfolding put_profile
find_profile-put_profile row [] = rw (eqb_refl row.user_id) refl
  where
    eqb_refl : (a : ℤ) → eqb_ℤ a a ≡ true
    eqb_refl a = ground arith
find_profile-put_profile row (p ∷ ps) = elim (Bool-cases (eqb_ℤ p.user_id row.user_id)) [
  | inl same ↦ rw (same, eqb_refl row.user_id) refl
  | inr other ↦ rw (other, other) (find_profile-put_profile row ps)
]
  where
    eqb_refl : (a : ℤ) → eqb_ℤ a a ≡ true
    eqb_refl a = ground arith

-- A profile that was put leaves those of the other users.
pub find_profile-put_profile_other :
    (u : ℤ) (row : GetUserProfileByUserIdRow) (ps : List GetUserProfileByUserIdRow)
    → eqb_ℤ row.user_id u ≡ false
    → find_profile u (put_profile row ps) ≡ find_profile u ps
unfolding put_profile
find_profile-put_profile_other u row [] h = rw h refl
find_profile-put_profile_other u row (p ∷ ps) h = elim (Bool-cases (eqb_ℤ p.user_id row.user_id)) [
  | inl same ↦ rw (same, h, other p.user_id row.user_id u same h) refl
  | inr apart ↦ rw apart (
      ap (λ later. if eqb_ℤ p.user_id u then some p else later)
        (find_profile-put_profile_other u row ps h))
]
  where
    other : (a b c : ℤ) → eqb_ℤ a b ≡ true → eqb_ℤ b c ≡ false → eqb_ℤ a c ≡ false
    other a b c e f = ground (arith, e, f)
