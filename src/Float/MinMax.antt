-- ===== src/Float/MinMax.antt =====
-- The builtin min and max on the values from +0 up.
use mathlib.Core.Path.{subst}
use fraud_detection_lite.Float.Ops.{Float64, lt, min_float, max_float}
use fraud_detection_lite.Prelude.{◌≡◌, ◌⊎◌, refl, sym, ltb, arith, Bool-cases, inl, inr}
use fraud_detection_lite.Float.Order.{below_inf, finite, infinite, ⊑_left, ⊑_right, ⊑_trans, ◌⊑◌}
use fraud_detection_lite.Float.Monotone.{ltb→le, ltb-false→le}

-- The builtin min is the lesser value, and max the greater.
pub min-cases :
    {x y : Float64}
    → x ⊑ x
    → y ⊑ y
    → ((x ⊑ y) × (min_float x y ≡ x)) ⊎ ((y ⊑ x) × (min_float x y ≡ y))
unfolding min_float lt
min-cases (finite {a} h) (finite {a = b} k) = elim (Bool-cases (ltb a b)) [
  | inl l ↦ inl (finite (ltb→le a b l), rw l)
  | inr m ↦ inr (finite (ltb-false→le b a m), ground arith)
]
min-cases (finite h) infinite = inl (below_inf, refl)
min-cases infinite (finite k) = inr (below_inf, refl)
min-cases infinite infinite = inr (infinite, refl)

pub max-cases :
    {x y : Float64}
    → x ⊑ x
    → y ⊑ y
    → ((x ⊑ y) × (max_float x y ≡ y)) ⊎ ((y ⊑ x) × (max_float x y ≡ x))
unfolding max_float lt
max-cases (finite {a} h) (finite {a = b} k) = elim (Bool-cases (ltb a b)) [
  | inl l ↦ inl (finite (ltb→le a b l), rw l)
  | inr m ↦ inr (finite (ltb-false→le b a m), ground arith)
]
max-cases (finite h) infinite = inl (below_inf, refl)
max-cases infinite (finite k) = inr (below_inf, refl)
max-cases infinite infinite = inr (infinite, refl)

pub min_⊑_left : {x y : Float64} → x ⊑ x → y ⊑ y → min_float x y ⊑ x
min_⊑_left {x} {y} h k = elim (min-cases h k) [
  | inl (l, e) ↦ subst (λ t. t ⊑ x) (sym e) h
  | inr (l, e) ↦ subst (λ t. t ⊑ x) (sym e) l
]

pub min_⊑_right : {x y : Float64} → x ⊑ x → y ⊑ y → min_float x y ⊑ y
min_⊑_right {x} {y} h k = elim (min-cases h k) [
  | inl (l, e) ↦ subst (λ t. t ⊑ y) (sym e) l
  | inr (l, e) ↦ subst (λ t. t ⊑ y) (sym e) k
]

pub ⊑_min : {x y z : Float64} → z ⊑ x → z ⊑ y → z ⊑ min_float x y
⊑_min {x} {y} {z} h k = elim (min-cases (⊑_right h) (⊑_right k)) [
  | inl (l, e) ↦ subst (λ t. z ⊑ t) (sym e) h
  | inr (l, e) ↦ subst (λ t. z ⊑ t) (sym e) k
]

pub min_⊑ : {x x' y y' : Float64} → x ⊑ x' → y ⊑ y' → min_float x y ⊑ min_float x' y'
min_⊑ h k =
    ⊑_min (⊑_trans (min_⊑_left (⊑_left h) (⊑_left k)) h)
      (⊑_trans (min_⊑_right (⊑_left h) (⊑_left k)) k)

pub ⊑_max_left : {x y : Float64} → x ⊑ x → y ⊑ y → x ⊑ max_float x y
⊑_max_left {x} {y} h k = elim (max-cases h k) [
  | inl (l, e) ↦ subst (λ t. x ⊑ t) (sym e) l
  | inr (l, e) ↦ subst (λ t. x ⊑ t) (sym e) h
]

pub ⊑_max_right : {x y : Float64} → x ⊑ x → y ⊑ y → y ⊑ max_float x y
⊑_max_right {x} {y} h k = elim (max-cases h k) [
  | inl (l, e) ↦ subst (λ t. y ⊑ t) (sym e) k
  | inr (l, e) ↦ subst (λ t. y ⊑ t) (sym e) l
]

pub max_⊑ : {x y z : Float64} → x ⊑ z → y ⊑ z → max_float x y ⊑ z
max_⊑ {x} {y} {z} h k = elim (max-cases (⊑_left h) (⊑_left k)) [
  | inl (l, e) ↦ subst (λ t. t ⊑ z) (sym e) k
  | inr (l, e) ↦ subst (λ t. t ⊑ z) (sym e) h
]
