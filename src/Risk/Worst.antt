-- ===== src/Risk/Worst.antt =====
-- The highest score that a transaction can get, by the number of the user's allowed transactions.
use mathlib.Core.Path.{subst}
use fraud_detection_lite.Prelude.{ℕ, ◌≡◌, sym, arith}
use fraud_detection_lite.Prelude.Int.{ℤ, pos, negsuc, ◌≤ℤ◌}
use fraud_detection_lite.Float.Ops.{Float64, mul}
use fraud_detection_lite.Float.Order.{◌⊑◌, IsPositive, ⊑_trans, ⊑_right, ⊑-IsPositive}
use fraud_detection_lite.Float.Monotone.{mul_⊑, mul_⊑_right}
use fraud_detection_lite.Float.Literals.{lit_mono, lit-IsPositive, zero-mul}
use fraud_detection_lite.Constants.{lit}
use fraud_detection_lite.Risk.Confidence.{Between, confidence, confidence_mono, confidence_bounds}
use fraud_detection_lite.Risk.NewMode.{new_mode_risk, new_mode_risk_anti, new_mode_risk-le}
use fraud_detection_lite.Risk.Score.{
  calculate_aggregate_risk_score, dampen_risk_with_profile_confidence,
}
use fraud_detection_lite.Risk.Total.{
  factor, factor_anti, factor_bounds, half_pos, calculate_aggregate_risk_score_mono,
  calculate_aggregate_risk_score_bounds, dampen_risk_with_profile_confidence_lem,
}

full : Between (lit 0) (lit 100) (lit 100)
full = (lit_mono (omega arith), lit_mono (omega arith))

-- The aggregate of a new mode with `frequency` points and full points for the rest.
abbrev pub worst_raw : Float64 → ℤ → Float64
worst_raw frequency a =
    calculate_aggregate_risk_score (lit 100) frequency (new_mode_risk (confidence a)) (lit 100)

abbrev pub worst : Float64 → ℤ → Float64
worst frequency a = mul (worst_raw frequency a) (factor (confidence a))

negative_confidence : (n : ℕ) → confidence (pos 0) ≡ confidence (negsuc n)
negative_confidence n = ground arith

module _ {frequency : Float64} (hf : Between (lit 0) frequency (lit 100)) where
  worst_raw_bounds : (a : ℤ) → Between (lit 0) (worst_raw frequency a) (lit 100)
  worst_raw_bounds a = calculate_aggregate_risk_score_bounds full hf (new_mode_risk-le a) full

  factor_pos : (a : ℤ) → IsPositive (factor (confidence a))
  factor_pos a =
      ⊑-IsPositive half_pos (factor_bounds (confidence_bounds a)).0
        (factor_bounds (confidence_bounds a)).1 (lit-IsPositive 1 (omega arith) (omega arith))

  -- More allowed transactions give a lower worst case.
  pub worst_anti : (a b : ℤ) → a ≤ℤ b → worst frequency b ⊑ worst frequency a
  worst_anti a b h =
      ⊑_trans
        (mul_⊑
          (calculate_aggregate_risk_score_mono full.1 (⊑_right hf.0)
            (new_mode_risk_anti (confidence_mono a b h) (confidence_bounds b).1) full.1)
          (factor_pos b))
        (mul_⊑_right (worst_raw_bounds a).1 (lit-IsPositive 100 (omega arith) (omega arith))
          (factor_anti (confidence_mono a b h) (confidence_bounds b).1)
          (factor_bounds (confidence_bounds a)).1 (lit-IsPositive 1 (omega arith) (omega arith)))

  -- No count is worse than none.
  pub worst-le-none : (a : ℤ) → worst frequency a ⊑ worst frequency (pos 0)
  worst-le-none (pos n) = worst_anti (pos 0) (pos n) (omega arith)
  worst-le-none (negsuc n) =
      subst
        (λ c.
          mul (calculate_aggregate_risk_score (lit 100) frequency (new_mode_risk c) (lit 100))
            (factor c)
          ⊑ worst frequency (pos 0))
        (negative_confidence n) (worst_anti (pos 0) (pos 0) (omega arith))

  -- The score of four risks is at most the worst case for the frequency risk.
  pub dampened-le-worst :
      (a : ℤ) {r f m t : Float64}
      → Between (lit 0) r (lit 100)
      → Between (lit 0) f frequency
      → Between (lit 0) m (new_mode_risk (confidence a))
      → Between (lit 0) t (lit 100)
      → Between
          (lit 0)
          (dampen_risk_with_profile_confidence
            (calculate_aggregate_risk_score r f m t)
            (confidence a))
          (worst frequency a)
  dampened-le-worst a {r} {f} {m} {t} hr hf' hm ht =
      subst (λ x. Between (lit 0) x (worst frequency a))
        (sym (dampen_risk_with_profile_confidence_lem raw_bounds (confidence_bounds a)))
        (
          subst (λ x. x ⊑ mul raw (factor (confidence a))) (zero-mul (factor_pos a))
              (mul_⊑ raw_bounds.0 (factor_pos a)),
          mul_⊑ (calculate_aggregate_risk_score_mono hr.1 hf'.1 hm.1 ht.1) (factor_pos a),
        )
    where
      raw : Float64
      raw = calculate_aggregate_risk_score r f m t

      raw_bounds : Between (lit 0) raw (lit 100)
      raw_bounds =
          calculate_aggregate_risk_score_bounds hr (hf'.0, ⊑_trans hf'.1 hf.1)
            (hm.0, ⊑_trans hm.1 (new_mode_risk-le a).1) ht
