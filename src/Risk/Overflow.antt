-- ===== src/Risk/Overflow.antt =====
-- Amounts that do not fit an int32: what the analysis makes of them where int32(x) gives the least
-- int32 for a value out of range, as on amd64.
use fraud_detection_lite.Prelude.{ℕ, ◌*◌, ◌/◌, ◌≤◌, ◌≡◌, refl, ap, true, false, not, ◌||◌, arith}
use fraud_detection_lite.Prelude.Int.{ℤ, negsuc, ltb_ℤ}
use fraud_detection_lite.Float.Ops.{Float64, nan, inf, fin, one_units, to_int32}
use fraud_detection_lite.Float.Order.{◌⊑◌, finite, below_inf, infinite}
use fraud_detection_lite.Float.Literals.{lit_lem}
use fraud_detection_lite.Constants.{lit, min_transactions_for_profiling}
use fraud_detection_lite.Repository.Models.{UserProfileBehavior}
use fraud_detection_lite.Risk.Factors.{calculate_amount_deviation_risk, heuristic_amount_risk}

-- The result of CVTTSD2SL for every value out of range.
abbrev pub amd64 : Float64 → ℤ
amd64 x = negsuc 2147483647

abbrev units_of : Float64 → ℕ
units_of nan = 0
units_of (inf s) = 0
units_of (fin s a) = a

units : {a b : ℕ} → fin false a ≡ fin false b → a ≡ b
units e = ap units_of e

at_least : (a b : ℕ) → a ≤ b → a ≡ 2147483648 * one_units → 2147483648 ≤ b / one_units
at_least a b h e = omega arith

too_large :
    (platform : Float64 → ℤ) {u x : Float64}
    → u ⊑ x
    → u ≡ fin false (2147483648 * one_units)
    → to_int32 platform x ≡ platform x
unfolding to_int32
too_large platform (finite {a} {b} h) e = ground (arith, at_least a b h (units e))
too_large platform below_inf e = refl
too_large platform infinite e = refl

from_nonneg :
    {u seen : Float64} → u ⊑ seen → ltb_ℤ (to_int32 amd64 seen) (negsuc 2147483647) ≡ false
unfolding to_int32
from_nonneg (finite {b} h) = ground arith
from_nonneg below_inf = refl
from_nonneg infinite = refl

-- On amd64 every amount of 2 ^ 31 or more gets 10 points of risk, as one that does not exceed the
-- maximum, where the profile has fewer than five transactions and a known maximum that is not negative.
pub large_amount_lowest_risk :
    (x : Float64) (p : UserProfileBehavior)
    → lit 2147483648 ⊑ x
    → ltb_ℤ p.total_transactions min_transactions_for_profiling ≡ true
    → p.max_transaction_amount_seen.valid ≡ true
    → lit 0 ⊑ p.max_transaction_amount_seen.float64
    → calculate_amount_deviation_risk amd64 (to_int32 amd64 x) p ≡ lit 10
unfolding calculate_amount_deviation_risk heuristic_amount_risk
large_amount_lowest_risk x p big few known seen =
    rw (too_large amd64 big (lit_lem 2147483648 (omega arith)), few_known, known, from_nonneg seen)
  where
    few_known :
        (not p.average_transaction_amount.valid
          || ltb_ℤ p.total_transactions min_transactions_for_profiling)
        ≡ true
    few_known = ground arith
