-- ===== src/Store/Sanity.antt =====
-- The amounts of a refreshed profile, as the analysis reads them.
use mathlib.Core.Path.{subst}
use fraud_detection_lite.Prelude.{
  ℕ, ◌+◌, ◌≤◌, ◌<◌, ◌≡◌, ◌∙◌, sym, ap, arith, true, List, [], ◌∷◌, Every, lt→ltb,
}
use fraud_detection_lite.Prelude.Int.{ℤ, pos, pos_part, neg_part}
use fraud_detection_lite.Float.Ops.{is_finite, lt, from_ℤ}
use fraud_detection_lite.Float.Order.{◌⊑◌, ⊑_trans, ⊑_right}
use fraud_detection_lite.Float.MinMax.{⊑_max_left}
use fraud_detection_lite.Float.Literals.{lit_mono, lt-lit, from_ℤ-finite, from_ℤ-pos}
use fraud_detection_lite.Constants.{lit}
use fraud_detection_lite.Specs.Error.{ok, >>=-ok}
use fraud_detection_lite.Repository.Models.{Transaction}
use fraud_detection_lite.Repository.Queries.{GetUserProfileByUserIdRow}
use fraud_detection_lite.Risk.Amount.{HasSaneAmounts}
use fraud_detection_lite.Service.Transaction.{domain_profile}
use fraud_detection_lite.Store.Tables.{World, Engine, cast_integer, or_zero, largest}
use fraud_detection_lite.Store.Transactions.{of_user, has_user}
use fraud_detection_lite.Store.Profiles.{
  allowed_of, amounts, Amounts, amounts_of, recalculate_user_profile, get_user_profile_by_user_id,
}
use fraud_detection_lite.Store.Profiles.Rows.{IsRowOf}
use fraud_detection_lite.Store.Profiles.Maximum.{cast_integer-bound, cast_integer-nonneg}
use fraud_detection_lite.Store.Refresh.{recalculate_user_profile-IsRefreshed}

abbrev pub HasNoDebt : Transaction → Type 0
HasNoDebt t = lit 0 ⊑ t.amount

largest-nonneg :
    (ts : List Transaction) → Every HasNoDebt ts → lit 0 ⊑ or_zero (largest (amounts ts))
unfolding largest
largest-nonneg [] h = lit_mono (omega arith)
largest-nonneg (t ∷ []) (ht, h) = ht
largest-nonneg (t ∷ s ∷ ts) (ht, h) =
    ⊑_trans ht (⊑_max_left (⊑_right ht) (⊑_right (largest-nonneg (s ∷ ts) h)))

fits_int32 : (n : ℕ) → n < 2147483648 → lt (from_ℤ (pos n)) (lit 2147483648) ≡ true
fits_int32 n h =
    ap (λ x. lt x (lit 2147483648)) (from_ℤ-pos n)
    ∙ lt-lit n 2147483648 (omega arith) (omega arith)
    ∙ lt→ltb n 2147483648 h

pub IsRowOf-HasSaneAmounts :
    (engine : Engine) (u : ℤ) (ts : List Transaction) (row : GetUserProfileByUserIdRow)
    → IsRowOf engine u ts row
    → Every HasNoDebt ts
    → HasSaneAmounts (domain_profile row)
unfolding domain_profile amounts_of
IsRowOf-HasSaneAmounts engine u ts row of h =
    let (average, e1, h1) =
      >>=-ok (cast_integer (or_zero (engine.average (amounts (allowed_of ts))))) _ of.amounts
        of.computed in
    let (deviation, e2, h2) =
      >>=-ok (cast_integer (or_zero (engine.deviation (amounts (allowed_of ts))))) _ of.amounts
        h1 in
    let (maximum, e3, h3) =
      >>=-ok (cast_integer (or_zero (largest (amounts ts)))) _ of.amounts h2 in
    let (n, whole, small) = cast_integer-nonneg maximum (largest-nonneg ts h) e3 in
    let made = amounts_path h3 in
    record {
      average_finite =
          ap (λ x. is_finite x.float64) of.average
          ∙ ap (λ (a : Amounts). is_finite (from_ℤ a.average)) (sym made)
          ∙ from_ℤ-finite average (omega (arith, cast_integer-bound _ average e1));
      maximum_nonneg =
          subst (λ x. lit 0 ⊑ x.float64) (sym of.maximum)
            (subst (λ (a : Amounts). lit 0 ⊑ from_ℤ a.maximum) made
              (subst (λ m. lit 0 ⊑ from_ℤ m) (sym whole)
                (subst (λ x. lit 0 ⊑ x) (sym (from_ℤ-pos n)) (lit_mono (omega arith)))));
      maximum_fits =
          ap (λ x. lt x.float64 (lit 2147483648)) of.maximum
          ∙ ap (λ (a : Amounts). lt (from_ℤ a.maximum) (lit 2147483648)) (sym made)
          ∙ ap (λ m. lt (from_ℤ m) (lit 2147483648)) whole
          ∙ fits_int32 n small;
      deviation_fits =
          subst (λ x. pos_part x.int32 + neg_part x.int32 ≤ 2147483648) (sym of.deviation)
            (subst (λ (a : Amounts). pos_part a.deviation + neg_part a.deviation ≤ 2147483648) made
              (cast_integer-bound _ deviation e2));
    }
  where
    amounts_path : {x y : Amounts} → ok x ≡ ok y → x ≡ y
    amounts_path p = cc

-- Where no amount of a user that exists is negative or NaN: if RecalculateUserProfile succeeds, the
-- profile that is read afterwards has sane amounts, as the limits of the analysis need them: a finite
-- average, a maximum from 0 to below 2 ^ 31, and a standard deviation that is an int32.
pub recalculate_user_profile-HasSaneAmounts :
    (engine : Engine) (u : ℤ) (w : World)
    → has_user u w.users ≡ true
    → Every HasNoDebt (of_user u w.transactions)
    → (recalculate_user_profile engine u w).0 ≡ ok tt
    → (row : GetUserProfileByUserIdRow) × ((get_user_profile_by_user_id u
          (recalculate_user_profile engine u w).1).0
        ≡ ok row)
      × HasSaneAmounts (domain_profile row)
recalculate_user_profile-HasSaneAmounts engine u w known h done =
    let (row, read, refreshed) = recalculate_user_profile-IsRefreshed engine u w known done in
    (row, read, IsRowOf-HasSaneAmounts engine u (of_user u w.transactions) row refreshed.0 h)
