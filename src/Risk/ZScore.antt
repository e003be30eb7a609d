-- ===== src/Risk/ZScore.antt =====
-- The risk from a z-score, in CalculateAmountDeviationRisk.
use mathlib.Core.Path.{subst}
use fraud_detection_lite.Prelude.{◌+◌, ◌≤◌, ◌≡◌, ap, ◌∙◌, true, false, arith, Bool-cases, inl, inr}
use fraud_detection_lite.Prelude.Int.{ℤ, pos_part, neg_part}
use fraud_detection_lite.Float.Ops.{
  Float64, from_ℤ, sub, mul, div, lt, le, eq, min_float, is_nan, is_finite,
}
use fraud_detection_lite.Float.Order.{◌⊑◌, ⊑_right}
use fraud_detection_lite.Float.Monotone.{mul_⊑, sub_⊑}
use fraud_detection_lite.Float.MinMax.{min_⊑_right, ⊑_min}
use fraud_detection_lite.Float.Literals.{lit_mono, lit-IsPositive, sub-lit, mul-lit, from_ℤ-finite}
use fraud_detection_lite.Float.NotNan.{sub-not_nan, div-not_nan, not_le→⊑, from_ℤ-not_nan}
use fraud_detection_lite.Constants.{lit}
use fraud_detection_lite.Risk.Factors.{z_score_amount_risk}
use fraud_detection_lite.Risk.Confidence.{Between}

-- A z-score above one gives between 0 and 100 points.
z_risk_bounds :
    (z : Float64)
    → lit 1 ⊑ z
    → Between (lit 0) (min_float (mul (sub z (lit 1)) (lit 25)) (lit 100)) (lit 100)
z_risk_bounds z h = (
  ⊑_min from_zero (lit_mono (omega arith)),
  min_⊑_right (⊑_right from_zero) (lit_mono (omega arith)),
)
  where
    zero_points : mul (sub (lit 1) (lit 1)) (lit 25) ≡ lit 0
    zero_points =
        ap (λ t. mul t (lit 25)) (sub-lit 1 1 (omega arith) (omega arith))
        ∙ mul-lit 0 25 (omega arith) (omega arith) (omega arith)

    from_zero : lit 0 ⊑ mul (sub z (lit 1)) (lit 25)
    from_zero =
        subst (λ t. t ⊑ mul (sub z (lit 1)) (lit 25)) zero_points
          (mul_⊑ (sub_⊑ (lit-IsPositive 1 (omega arith) (omega arith)) (lit_mono (omega arith)) h)
            (lit-IsPositive 25 (omega arith) (omega arith)))

pub z_score_amount_risk_bounds :
    (avg : Float64) (d a : ℤ)
    → is_finite avg ≡ true
    → pos_part d + neg_part d ≤ 2147483648
    → Between (lit 0) (z_score_amount_risk avg (from_ℤ d) (from_ℤ a)) (lit 100)
unfolding z_score_amount_risk
z_score_amount_risk_bounds avg d a fa fd = elim (Bool-cases (eq (from_ℤ d) (lit 0))) [
  | inl constant ↦ rw constant (elim (Bool-cases (eq (from_ℤ a) avg)) [
    | inl same ↦ rw same (lit_mono (omega arith), lit_mono (omega arith))
    | inr other ↦ rw other (elim (Bool-cases (lt avg (from_ℤ a))) [
      | inl more ↦ rw more (lit_mono (omega arith), lit_mono (omega arith))
      | inr less ↦ rw less (lit_mono (omega arith), lit_mono (omega arith))
    ])
  ])
  | inr spread ↦ rw spread (elim (Bool-cases (le z (lit 1))) [
    | inl usual ↦ rw usual (lit_mono (omega arith), lit_mono (omega arith))
    | inr high ↦ rw high (z_risk_bounds z (not_le→⊑ z 1 (omega arith) (z-not_nan spread) high))
  ])
]
  where
    z : Float64
    z = div (sub (from_ℤ a) avg) (from_ℤ d)

    z-not_nan : eq (from_ℤ d) (lit 0) ≡ false → is_nan z ≡ false
    z-not_nan spread =
        div-not_nan (sub (from_ℤ a) avg) (from_ℤ d)
          (sub-not_nan (from_ℤ a) avg (from_ℤ-not_nan a) fa) (from_ℤ-finite d (omega arith)) spread
