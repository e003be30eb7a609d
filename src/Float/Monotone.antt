-- ===== src/Float/Monotone.antt =====
-- The operations that keep the order of the values from +0 up.
use mathlib.Core.Path.{subst, subst₂}
use fraud_detection_lite.Float.Round.{round_ratio_mono}
use fraud_detection_lite.Float.Ops.{
  Float64, inf, fin, one_units, round_fuel, pack, rounded, opposite, neg, add, sub, mul, div,
}
use fraud_detection_lite.Prelude.{
  ℕ, ◌+◌, zero, suc, ◌-◌, ◌*◌, ◌≤◌, ◌<◌, ◌≡◌, refl, sym, ap, ◌∙◌, true, false, ltb, if◌then◌else◌,
  arith, Bool-cases, inl, inr,
}
use fraud_detection_lite.Float.Order.{IsPositive, below_inf, finite, infinite, positive, ◌⊑◌}

lt-false_mono : (m n l : ℕ) → m ≤ n → ltb m l ≡ false → ltb n l ≡ false
lt-false_mono m n l h e = ground arith

module _ (limit : ℕ) where
  capped_⊑ :
      (m n : ℕ)
      → m ≤ n
      → (if ltb m limit then fin false m else inf false)
        ⊑ (if ltb n limit then fin false n else inf false)
  capped_⊑ m n h = elim (Bool-cases (ltb m limit)) [
    | inl a ↦
        rw a (elim (Bool-cases (ltb n limit)) [ inl b ↦ rw b (finite h) | inr b ↦ rw b below_inf ])
    | inr a ↦ rw (a, lt-false_mono m n limit h a) infinite
  ]

  capped-NonNeg : (m : ℕ) → (if ltb m limit then fin false m else inf false) ⊑ inf false
  capped-NonNeg m = elim (Bool-cases (ltb m limit)) [
    | inl a ↦ rw a below_inf
    | inr a ↦ rw a infinite
  ]

pub rounded_⊑ : (p p' q : ℕ) → 0 < q → p ≤ p' → rounded false p q ⊑ rounded false p' q
unfolding rounded pack
rounded_⊑ p p' q hq h = capped_⊑ _ _ _ (round_ratio_mono round_fuel p p' q hq h)

pub rounded-NonNeg : (p q : ℕ) → rounded false p q ⊑ inf false
unfolding rounded pack
rounded-NonNeg p q = capped-NonNeg _ _

pub add_⊑ : {x x' y y' : Float64} → x ⊑ x' → y ⊑ y' → add x y ⊑ add x' y'
unfolding add
add_⊑ (finite {a} {b} h) (finite {a = c} {b = d} k) =
    rounded_⊑ (a + c) (b + d) 1 (omega arith) (omega arith)
add_⊑ (finite {a} h) (below_inf {a = c}) = rounded-NonNeg (a + c) 1
add_⊑ (finite h) infinite = infinite
add_⊑ (below_inf {a}) (finite {a = c} k) = rounded-NonNeg (a + c) 1
add_⊑ (below_inf {a}) (below_inf {a = c}) = rounded-NonNeg (a + c) 1
add_⊑ below_inf infinite = infinite
add_⊑ infinite (finite k) = infinite
add_⊑ infinite below_inf = infinite
add_⊑ infinite infinite = infinite

pub mul_⊑ : {x x' y : Float64} → x ⊑ x' → IsPositive y → mul x y ⊑ mul x' y
unfolding mul
mul_⊑ (finite {a} {b} h) (positive {a = c} k) =
    rounded_⊑ (a * c) (b * c) one_units (omega arith) (grind arith)
mul_⊑ (below_inf {a}) (positive {a = zero} k) = absurd (omega arith)
mul_⊑ (below_inf {a}) (positive {a = suc c} k) = rounded-NonNeg (a * suc c) one_units
mul_⊑ infinite (positive {a = zero} k) = absurd (omega arith)
mul_⊑ infinite (positive {a = suc c} k) = infinite

-- Finite factors grow with the second one too.
pub mul_⊑_right :
    {x y y' v w : Float64}
    → x ⊑ v
    → IsPositive v
    → y ⊑ y'
    → y' ⊑ w
    → IsPositive w
    → mul x y ⊑ mul x y'
unfolding mul
mul_⊑_right (finite {a} h) (positive i) (finite {a = b} {b = c} k) (finite l) (positive j) =
    rounded_⊑ (a * b) (a * c) one_units (omega arith) (grind arith)
mul_⊑_right (finite h) (positive i) (finite k) below_inf j = elim j [ ]
mul_⊑_right (finite h) (positive i) below_inf infinite j = elim j [ ]
mul_⊑_right (finite h) (positive i) infinite infinite j = elim j [ ]
mul_⊑_right below_inf i k l j = elim i [ ]
mul_⊑_right infinite i k l j = elim i [ ]

pub div_⊑ : {x x' y : Float64} → x ⊑ x' → IsPositive y → div x y ⊑ div x' y
unfolding div
div_⊑ h (positive {a = zero} k) = absurd (omega arith)
div_⊑ (finite {a} {b} h) (positive {a = suc c} k) =
    rounded_⊑ (a * one_units) (b * one_units) (suc c) (omega arith) (omega arith)
div_⊑ (below_inf {a}) (positive {a = suc c} k) = rounded-NonNeg (a * one_units) (suc c)
div_⊑ infinite (positive {a = suc c} k) = infinite

ltb-ge : (a b : ℕ) → b ≤ a → ltb a b ≡ false
ltb-ge a b h = ground arith

pub ltb-false→le : (a b : ℕ) → ltb b a ≡ false → a ≤ b
ltb-false→le a b h = ground arith

pub ltb→le : (a b : ℕ) → ltb a b ≡ true → a ≤ b
ltb→le a b h = ground arith

rounded-zero : (n : ℕ) → n ≡ 0 → rounded false n 1 ≡ fin false 0
rounded-zero n e = ap (λ (t : ℕ). rounded false t 1) e ∙ (unfold rounded in refl)

-- A difference of magnitudes, with the sign of the larger.
pub difference : (a b : ℕ) → b ≤ a → opposite false a b ≡ rounded false (a - b) 1
unfolding opposite
difference a b h = elim (Bool-cases (ltb b a)) [
  | inl l ↦ rw l
  | inr m ↦ rw (m, ltb-ge a b h) (sym (rounded-zero (a - b) (omega (arith, ltb-false→le a b m))))
]

-- Subtracting a constant keeps the order.
pub sub_⊑ : {x x' y : Float64} → IsPositive y → y ⊑ x → x ⊑ x' → sub x y ⊑ sub x' y
unfolding sub add neg
sub_⊑ (positive {a = c} k) (finite l) (finite {a} {b} h) =
    subst₂ ◌⊑◌ (sym (difference a c l)) (sym (difference b c (omega arith)))
      (rounded_⊑ (a - c) (b - c) 1 (omega arith) (omega arith))
sub_⊑ (positive {a = c} k) (finite l) (below_inf {a}) =
    subst (λ t. t ⊑ inf false) (sym (difference a c l)) (rounded-NonNeg (a - c) 1)
sub_⊑ (positive k) below_inf infinite = infinite

-- Subtracting from a constant reverses it.
pub sub_⊑_anti : {x y y' : Float64} → y' ⊑ y → y ⊑ x → IsPositive x → sub x y ⊑ sub x y'
unfolding sub add neg
sub_⊑_anti (finite {a} {b} h) (finite l) (positive {a = c} k) =
    subst₂ ◌⊑◌ (sym (difference c b l)) (sym (difference c a (omega arith)))
      (rounded_⊑ (c - b) (c - a) 1 (omega arith) (omega arith))
sub_⊑_anti (finite h) below_inf x = elim x [ ]
sub_⊑_anti below_inf infinite x = elim x [ ]
sub_⊑_anti infinite infinite x = elim x [ ]
