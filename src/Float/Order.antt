-- ===== src/Float/Order.antt =====
-- The order of the values from +0 up to the positive infinity.
use fraud_detection_lite.Float.Ops.{Float64, inf, fin, lt, eq, le}
use fraud_detection_lite.Prelude.{ℕ, ◌≤◌, ◌<◌, ◌≡◌, refl, ap, true, false, arith}

-- x ⊑ y: both have a clear sign bit, and x is at most y.
infix 40 ◌⊑◌
pub data ◌⊑◌ : Float64 → Float64 → Type 0 where
  finite : {a b : ℕ} → a ≤ b → fin false a ⊑ fin false b
  below_inf : {a : ℕ} → fin false a ⊑ inf false
  infinite : inf false ⊑ inf false

-- A finite value above zero.
pub data IsPositive : Float64 → Type 0 where
  positive : {a : ℕ} → 0 < a → IsPositive (fin false a)

pub ⊑_trans : {x y z : Float64} → x ⊑ y → y ⊑ z → x ⊑ z
⊑_trans (finite h) (finite k) = finite (omega arith)
⊑_trans (finite h) below_inf = below_inf
⊑_trans below_inf infinite = below_inf
⊑_trans infinite infinite = infinite

pub ⊑_left : {x y : Float64} → x ⊑ y → x ⊑ x
⊑_left (finite h) = finite (omega arith)
⊑_left below_inf = finite (omega arith)
⊑_left infinite = infinite

pub ⊑_right : {x y : Float64} → x ⊑ y → y ⊑ y
⊑_right (finite h) = finite (omega arith)
⊑_right below_inf = infinite
⊑_right infinite = infinite

pub ⊑_antisym : {x y : Float64} → x ⊑ y → y ⊑ x → x ≡ y
⊑_antisym (finite h) (finite k) = ap (fin false) (omega arith)
⊑_antisym below_inf k = elim k [ ]
⊑_antisym infinite infinite = refl

pub ⊑_refl : {x : Float64} → IsPositive x → x ⊑ x
⊑_refl (positive h) = finite (omega arith)

-- A value between two finite positive ones is one.
pub ⊑-IsPositive : {x y z : Float64} → IsPositive x → x ⊑ y → y ⊑ z → IsPositive z → IsPositive y
⊑-IsPositive (positive h) (finite k) l i = positive (omega arith)
⊑-IsPositive (positive h) below_inf infinite i = elim i [ ]

pub ⊑→le : {x y : Float64} → x ⊑ y → le x y ≡ true
unfolding le lt eq
⊑→le (finite h) = ground arith
⊑→le below_inf = refl
⊑→le infinite = refl

pub le→⊑ : {x y : Float64} → x ⊑ x → y ⊑ y → le x y ≡ true → x ⊑ y
unfolding le lt eq
le→⊑ (finite h) (finite k) e = finite (ground arith)
le→⊑ (finite h) infinite e = below_inf
le→⊑ infinite (finite k) e = cc
le→⊑ infinite infinite e = infinite

pub ⊑-lt : {x y z : Float64} → x ⊑ y → y ⊑ y → z ⊑ z → lt y z ≡ true → lt x z ≡ true
unfolding lt
⊑-lt (finite h) j (finite k) e = ground arith
⊑-lt (finite h) j infinite e = refl
⊑-lt below_inf j (finite k) e = cc
⊑-lt below_inf j infinite e = refl
⊑-lt infinite j (finite k) e = cc
⊑-lt infinite j infinite e = e

pub lt-⊑ : {x y z : Float64} → x ⊑ x → y ⊑ z → lt x y ≡ true → lt x z ≡ true
unfolding lt
lt-⊑ (finite h) (finite k) e = ground arith
lt-⊑ (finite h) below_inf e = refl
lt-⊑ (finite h) infinite e = refl
lt-⊑ infinite (finite k) e = cc
lt-⊑ infinite below_inf e = cc
lt-⊑ infinite infinite e = cc

-- If the greater value does not exceed z, the lesser does not.
pub not_lt-⊑ : {x y z : Float64} → z ⊑ z → x ⊑ y → lt z y ≡ false → lt z x ≡ false
unfolding lt
not_lt-⊑ (finite h) (finite k) e = ground arith
not_lt-⊑ (finite h) below_inf e = cc
not_lt-⊑ (finite h) infinite e = cc
not_lt-⊑ infinite (finite k) e = refl
not_lt-⊑ infinite below_inf e = refl
not_lt-⊑ infinite infinite e = refl

-- What is at least y is not below it.
pub ⊑→not_lt : {x y : Float64} → y ⊑ x → lt x y ≡ false
unfolding lt
⊑→not_lt (finite h) = ground arith
⊑→not_lt below_inf = refl
⊑→not_lt infinite = refl

-- What is not below y is at least y.
pub not_lt→⊑ : {x y : Float64} → x ⊑ x → y ⊑ y → lt x y ≡ false → y ⊑ x
unfolding lt
not_lt→⊑ (finite h) (finite k) e = finite (ground arith)
not_lt→⊑ (finite h) infinite e = cc
not_lt→⊑ infinite (finite k) e = below_inf
not_lt→⊑ infinite infinite e = infinite
