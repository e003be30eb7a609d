-- ===== src/Risk/Frequency.antt =====
-- What CalculateFrequencySpikeRisk gives: 20 points for each transaction of the hour after the
-- third, the current one counted.
use Prim.Native.Nat.{min}
use mathlib.Core.Path.{subst}
use fraud_detection_lite.Prelude.{
  ℕ, ◌+◌, ◌-◌, ◌*◌, ◌^◌, ◌≤◌, ◌<◌, ◌≡◌, sym, ap, ◌∙◌, true, false, arith, leb, Bool-cases, inl, inr,
}
use fraud_detection_lite.Prelude.Int.{pos, leb_ℤ, add64, sub64}
use fraud_detection_lite.Float.Ops.{from_ℤ, mul, min_float}
use fraud_detection_lite.Float.Literals.{from_ℤ-pos, mul-lit, min-lit, lit_mono}
use fraud_detection_lite.Constants.{lit}
use fraud_detection_lite.Risk.Confidence.{Between}
use fraud_detection_lite.Repository.Models.{UserProfileBehavior}
use fraud_detection_lite.Risk.Factors.{calculate_frequency_spike_risk}

-- The counters stay far from the end of an int.
current_count : (n : ℕ) → n < 2 ^ 31 → add64 (pos n) (pos 1) ≡ pos (n + 1)
current_count n h = ground arith

excess : (n : ℕ) → 2 < n → n < 2 ^ 31 → sub64 (pos (n + 1)) (pos 3) ≡ pos (n - 2)
excess n l h = ground arith

points :
    (k : ℕ)
    → k < 2 ^ 31
    → min_float (mul (from_ℤ (pos k)) (lit 20)) (lit 100) ≡ lit (min 100 (20 * k))
points k h =
    ap (λ t. min_float (mul t (lit 20)) (lit 100)) (from_ℤ-pos k)
    ∙ ap (λ t. min_float t (lit 100)) (mul-lit k 20 (omega arith) (omega arith) (omega arith))
    ∙ min-lit (k * 20) 100 (omega arith) (omega arith)
    ∙ ap lit {x = min (k * 20) 100} {y = min 100 (20 * k)} (omega arith)

few : (n : ℕ) → n ≤ 2 → lit 0 ≡ lit (min 100 (20 * (n - 2)))
few n h = ap lit (zero_points n h)
  where
    zero_points : (m : ℕ) → m ≤ 2 → 0 ≡ min 100 (20 * (m - 2))
    zero_points m l = omega arith

-- A user with n earlier transactions in the window gets exactly 20 * (n - 2) points, at least 0 and
-- at most 100, for every count below 2 ^ 31.
pub calculate_frequency_spike_risk_lem :
    (p : UserProfileBehavior) (n : ℕ)
    → n < 2 ^ 31
    → calculate_frequency_spike_risk p (pos n) ≡ lit (min 100 (20 * (n - 2)))
unfolding calculate_frequency_spike_risk
calculate_frequency_spike_risk_lem p n h = elim (Bool-cases (leb n 2)) [
  | inl l ↦ rw (current_count n h, at_most n l) (few n (ground arith))
  | inr m ↦
      rw (current_count n h, above n m, excess n (ground arith) h) (points (n - 2) (omega arith))
]
  where
    at_most : (k : ℕ) → leb k 2 ≡ true → leb_ℤ (pos (k + 1)) (pos 3) ≡ true
    at_most k e = ground arith

    above : (k : ℕ) → leb k 2 ≡ false → leb_ℤ (pos (k + 1)) (pos 3) ≡ false
    above k e = ground arith

pub calculate_frequency_spike_risk_bounds :
    (p : UserProfileBehavior) (n : ℕ)
    → n < 2 ^ 31
    → Between (lit 0) (calculate_frequency_spike_risk p (pos n)) (lit 100)
calculate_frequency_spike_risk_bounds p n h =
    subst (λ t. Between (lit 0) t (lit 100)) (sym (calculate_frequency_spike_risk_lem p n h))
      (lit_mono (omega arith), lit_mono (omega arith))
