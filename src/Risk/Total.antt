-- ===== src/Risk/Total.antt =====
-- The aggregate score and its dampening stay in range and keep the order of their parts.
use mathlib.Core.Path.{subst}
use fraud_detection_lite.Prelude.{◌≡◌, refl, arith}
use fraud_detection_lite.Float.Ops.{Float64, sub, mul, div}
use fraud_detection_lite.Float.Order.{◌⊑◌, finite, IsPositive, positive, ⊑_trans, ⊑→not_lt}
use fraud_detection_lite.Float.Monotone.{add_⊑, mul_⊑, mul_⊑_right, div_⊑, sub_⊑_anti}
use fraud_detection_lite.Float.MinMax.{min_⊑}
use fraud_detection_lite.Float.Literals.{lit_mono, lit-IsPositive}
use fraud_detection_lite.Constants.{
  lit, numbers, weight_amount_deviation, weight_frequency_spike, weight_mode_deviation,
  weight_time_anomaly,
}
use fraud_detection_lite.Risk.Confidence.{Between}
use fraud_detection_lite.Risk.Score.{
  half, tenth, calculate_aggregate_risk_score, dampen_risk_with_profile_confidence,
}

amount_weight_pos : IsPositive weight_amount_deviation
unfolding numbers
amount_weight_pos = positive (omega arith)

frequency_weight_pos : IsPositive weight_frequency_spike
unfolding numbers
frequency_weight_pos = positive (omega arith)

mode_weight_pos : IsPositive weight_mode_deviation
unfolding numbers
mode_weight_pos = positive (omega arith)

time_weight_pos : IsPositive weight_time_anomaly
unfolding numbers
time_weight_pos = positive (omega arith)

pub half_pos : IsPositive half
unfolding numbers half
half_pos = positive (omega arith)

-- A greater risk in any factor gives no lower aggregate.
pub calculate_aggregate_risk_score_mono :
    {a a' f f' m m' t t' : Float64}
    → a ⊑ a'
    → f ⊑ f'
    → m ⊑ m'
    → t ⊑ t'
    → calculate_aggregate_risk_score a f m t ⊑ calculate_aggregate_risk_score a' f' m' t'
unfolding calculate_aggregate_risk_score
calculate_aggregate_risk_score_mono ha hf hm ht =
    min_⊑
      (add_⊑
        (add_⊑ (add_⊑ (mul_⊑ ha amount_weight_pos) (mul_⊑ hf frequency_weight_pos))
          (mul_⊑ hm mode_weight_pos))
        (mul_⊑ ht time_weight_pos))
      (lit_mono (omega arith))

aggregate_none : calculate_aggregate_risk_score (lit 0) (lit 0) (lit 0) (lit 0) ≡ lit 0
unfolding numbers calculate_aggregate_risk_score
aggregate_none = refl

aggregate_all : calculate_aggregate_risk_score (lit 100) (lit 100) (lit 100) (lit 100) ≡ lit 100
unfolding numbers calculate_aggregate_risk_score
aggregate_all = refl

-- Four risks from 0 to 100 have an aggregate from 0 to 100.
pub calculate_aggregate_risk_score_bounds :
    {a f m t : Float64}
    → Between (lit 0) a (lit 100)
    → Between (lit 0) f (lit 100)
    → Between (lit 0) m (lit 100)
    → Between (lit 0) t (lit 100)
    → Between (lit 0) (calculate_aggregate_risk_score a f m t) (lit 100)
calculate_aggregate_risk_score_bounds {a} {f} {m} {t} ha hf hm ht = (
  subst (λ x. x ⊑ calculate_aggregate_risk_score a f m t) aggregate_none
      (calculate_aggregate_risk_score_mono ha.0 hf.0 hm.0 ht.0),
  subst (λ x. calculate_aggregate_risk_score a f m t ⊑ x) aggregate_all
      (calculate_aggregate_risk_score_mono ha.1 hf.1 hm.1 ht.1),
)

-- The dampening factor, before its cap.
abbrev pub factor : Float64 → Float64
factor c = sub (lit 1) (div c (lit 200))

trust : {c d : Float64} → c ⊑ d → div c (lit 200) ⊑ div d (lit 200)
trust h = div_⊑ h (lit-IsPositive 200 (omega arith) (omega arith))

trust_full-le : div (lit 100) (lit 200) ⊑ lit 1
unfolding numbers
trust_full-le = finite (omega arith)

factor_full : factor (lit 100) ≡ half
unfolding numbers half
factor_full = refl

factor_none : factor (lit 0) ≡ lit 1
unfolding numbers
factor_none = refl

-- More confidence gives a smaller factor.
pub factor_anti : {c d : Float64} → c ⊑ d → d ⊑ lit 100 → factor d ⊑ factor c
factor_anti h k =
    sub_⊑_anti (trust h) (⊑_trans (trust k) trust_full-le)
      (lit-IsPositive 1 (omega arith) (omega arith))

pub factor_bounds : {c : Float64} → Between (lit 0) c (lit 100) → Between half (factor c) (lit 1)
factor_bounds {c} (l, h) = (
  subst (λ t. t ⊑ factor c) factor_full (factor_anti h (lit_mono (omega arith))),
  subst (λ t. factor c ⊑ t) factor_none (factor_anti l h),
)

tenth-le-half : tenth ⊑ half
unfolding numbers half tenth
tenth-le-half = finite (omega arith)

-- For a score and a confidence from 0 to 100 the cap of the factor at one half and the floor at a
-- tenth of the score have no effect: the result is the score times 1 - confidence / 200.
pub dampen_risk_with_profile_confidence_lem :
    {raw c : Float64}
    → Between (lit 0) raw (lit 100)
    → Between (lit 0) c (lit 100)
    → dampen_risk_with_profile_confidence raw c ≡ mul raw (sub (lit 1) (div c (lit 200)))
unfolding dampen_risk_with_profile_confidence
dampen_risk_with_profile_confidence_lem {raw} {c} hr hc =
    rw (⊑→not_lt (factor_bounds hc).0, ⊑→not_lt floor_below)
  where
    floor_below : mul raw tenth ⊑ mul raw (factor c)
    floor_below =
        mul_⊑_right hr.1 (lit-IsPositive 100 (omega arith) (omega arith))
          (⊑_trans tenth-le-half (factor_bounds hc).0) (factor_bounds hc).1
          (lit-IsPositive 1 (omega arith) (omega arith))
