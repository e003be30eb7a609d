-- ===== src/Float/Enough.antt =====
-- The fuel of the rounding is enough for every quotient of two float64.
use native.Mathlib.Nat.{mul-le-mul_left}
use fraud_detection_lite.Prelude.{ℕ, ◌+◌, ◌*◌, ◌^◌, ◌≤◌, ◌<◌, ◌≡◌, arith}
use fraud_detection_lite.Float.Round.{round_ratio, round_ratio-enough}
use fraud_detection_lite.Float.Ops.{one_units, round_fuel}

-- More fuel changes no sum, product or quotient of the magnitudes of two float64, which are below
-- 2 ^ 2098 units.
rounded-enough :
    (a b g : ℕ)
    → a < 2 ^ 2098
    → b < 2 ^ 2098
    → round_fuel ≤ g
    → (round_ratio g (a + b) 1 ≡ round_ratio round_fuel (a + b) 1)
      × (round_ratio g (a * b) one_units ≡ round_ratio round_fuel (a * b) one_units)
      × (0 < b → round_ratio g (a * one_units) b ≡ round_ratio round_fuel (a * one_units) b)
rounded-enough a b g ha hb hg = (
  round_ratio-enough round_fuel g (a + b) 1 (omega arith) hg,
  round_ratio-enough round_fuel g (a * b) one_units
      (omega (arith, mul-le-mul_left {m = b} {n = 2 ^ 2098} a (omega arith))) hg,
  λ positive. round_ratio-enough round_fuel g (a * one_units) b (omega arith) hg,
)
