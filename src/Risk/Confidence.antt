-- ===== src/Risk/Confidence.antt =====
-- What CalculateProfileConfidence gives: a percentage that grows with the allowed transactions.
use mathlib.Core.Path.{subst}
use fraud_detection_lite.Prelude.{◌≡◌, refl, false, arith, if◌then◌else◌, Bool-cases, inl, inr}
use fraud_detection_lite.Prelude.Int.{ℤ, pos, ◌≤ℤ◌, leb_ℤ}
use fraud_detection_lite.Float.Ops.{Float64, from_ℤ, mul, div, min_float}
use fraud_detection_lite.Float.Order.{◌⊑◌, ⊑_right}
use fraud_detection_lite.Float.Monotone.{mul_⊑, div_⊑}
use fraud_detection_lite.Float.MinMax.{min_⊑, min_⊑_right, ⊑_min}
use fraud_detection_lite.Float.Literals.{from_ℤ_mono, lit_mono, lit-IsPositive}
use fraud_detection_lite.Constants.{lit, numbers}
use fraud_detection_lite.Repository.Models.{UserProfileBehavior}
use fraud_detection_lite.Risk.Factors.{calculate_profile_confidence}

-- lo ≤ x ≤ hi, all three with a clear sign bit.
abbrev pub Between : Float64 → Float64 → Float64 → Type 0
Between lo x hi = (lo ⊑ x) × (x ⊑ hi)

abbrev pub percent : ℤ → Float64
percent a = mul (div (from_ℤ a) (lit 50)) (lit 100)

percent_mono : (a b : ℤ) → pos 0 ≤ℤ a → a ≤ℤ b → percent a ⊑ percent b
percent_mono a b h k =
    mul_⊑ (div_⊑ (from_ℤ_mono a b h k) (lit-IsPositive 50 (omega arith) (omega arith)))
      (lit-IsPositive 100 (omega arith) (omega arith))

percent_zero : percent (pos 0) ≡ lit 0
unfolding numbers
percent_zero = refl

-- The confidence as a function of the allowed transactions alone.
abbrev pub confidence : ℤ → Float64
confidence a = if leb_ℤ a (pos 0) then lit 0 else min_float (percent a) (lit 100)

percent_nonneg : (a : ℤ) → pos 0 ≤ℤ a → lit 0 ⊑ percent a
percent_nonneg a h =
    subst (λ t. t ⊑ percent a) percent_zero (percent_mono (pos 0) a (omega arith) h)

capped_bounds : (a : ℤ) → pos 0 ≤ℤ a → Between (lit 0) (min_float (percent a) (lit 100)) (lit 100)
capped_bounds a h = (
  ⊑_min (percent_nonneg a h) (lit_mono (omega arith)),
  min_⊑_right (⊑_right (percent_nonneg a h)) (lit_mono (omega arith)),
)

pub confidence_bounds : (a : ℤ) → Between (lit 0) (confidence a) (lit 100)
confidence_bounds a = elim (Bool-cases (leb_ℤ a (pos 0))) [
  | inl none_allowed ↦ rw none_allowed (lit_mono (omega arith), lit_mono (omega arith))
  | inr some_allowed ↦ rw some_allowed (capped_bounds a (ground arith))
]

pub confidence_mono : (a b : ℤ) → a ≤ℤ b → confidence a ⊑ confidence b
confidence_mono a b h = elim (Bool-cases (leb_ℤ a (pos 0))) [
  | inl none_allowed ↦ rw none_allowed (confidence_bounds b).0
  | inr some_allowed ↦
      rw (some_allowed, more_allowed a b h some_allowed)
        (min_⊑ (percent_mono a b (ground arith) h) (lit_mono (omega arith)))
]
  where
    more_allowed : (x y : ℤ) → x ≤ℤ y → leb_ℤ x (pos 0) ≡ false → leb_ℤ y (pos 0) ≡ false
    more_allowed x y l e = ground arith

pub calculate_profile_confidence_lem :
    (p : UserProfileBehavior) → calculate_profile_confidence p ≡ confidence p.allowed_transactions
unfolding calculate_profile_confidence
calculate_profile_confidence_lem p = refl

-- The confidence lies between 0 and 100, for every profile.
calculate_profile_confidence_bounds :
    (p : UserProfileBehavior) → Between (lit 0) (calculate_profile_confidence p) (lit 100)
unfolding calculate_profile_confidence
calculate_profile_confidence_bounds p = confidence_bounds p.allowed_transactions

-- The confidence never falls when the number of allowed transactions grows.
calculate_profile_confidence_mono :
    (p q : UserProfileBehavior)
    → p.allowed_transactions ≤ℤ q.allowed_transactions
    → calculate_profile_confidence p ⊑ calculate_profile_confidence q
unfolding calculate_profile_confidence
calculate_profile_confidence_mono p q h =
    confidence_mono p.allowed_transactions q.allowed_transactions h
