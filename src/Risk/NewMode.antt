-- ===== src/Risk/NewMode.antt =====
-- What CalculateModeDeviationRisk gives: nothing for a registered mode, and for a new one between 30
-- and 60 points, fewer for a user with more allowed transactions.
use mathlib.Core.Path.{subst}
use fraud_detection_lite.Prelude.{
  ◌≡◌, refl, sym, ap, ◌∙◌, true, false, not, ◌&&◌, ◌⊎◌, arith, Bool-cases, inl, inr,
}
use fraud_detection_lite.Prelude.Int.{ℤ, pos, leb_ℤ}
use fraud_detection_lite.Float.Ops.{Float64, sub, mul, div, max_float, lt}
use fraud_detection_lite.Float.Order.{◌⊑◌, ⊑_trans, ⊑_right, ⊑_antisym, lt-⊑, not_lt-⊑}
use fraud_detection_lite.Float.Monotone.{mul_⊑, div_⊑, sub_⊑_anti}
use fraud_detection_lite.Float.MinMax.{max-cases}
use fraud_detection_lite.Float.Literals.{lit_mono, lit-IsPositive, lt-lit}
use fraud_detection_lite.Constants.{lit, numbers, threshold_mode_deviation}
use fraud_detection_lite.Repository.Models.{UserProfileBehavior, Mode}
use fraud_detection_lite.Risk.Factors.{contains, calculate_mode_deviation_risk}
use fraud_detection_lite.Risk.Confidence.{
  Between, confidence, confidence_bounds, confidence_mono, calculate_profile_confidence_lem,
}

-- The reduction and the risk of a new mode, as functions of the confidence.
abbrev pub reduction : Float64 → Float64
reduction c = mul (div c (lit 100)) (lit 30)

abbrev pub new_mode_risk : Float64 → Float64
new_mode_risk c = sub (lit 60) (reduction c)

reduction_mono : {c d : Float64} → c ⊑ d → reduction c ⊑ reduction d
reduction_mono h =
    mul_⊑ (div_⊑ h (lit-IsPositive 100 (omega arith) (omega arith)))
      (lit-IsPositive 30 (omega arith) (omega arith))

reduction_full : reduction (lit 100) ≡ lit 30
unfolding numbers
reduction_full = refl

reduction_none : reduction (lit 0) ≡ lit 0
unfolding numbers
reduction_none = refl

reduction-le : {c : Float64} → c ⊑ lit 100 → reduction c ⊑ lit 30
reduction-le {c} h = subst (λ t. reduction c ⊑ t) reduction_full (reduction_mono h)

-- A higher confidence gives a lower risk.
pub new_mode_risk_anti : {c d : Float64} → c ⊑ d → d ⊑ lit 100 → new_mode_risk d ⊑ new_mode_risk c
new_mode_risk_anti h k =
    sub_⊑_anti (reduction_mono h) (⊑_trans (reduction-le k) (lit_mono (omega arith)))
      (lit-IsPositive 60 (omega arith) (omega arith))

new_mode_risk_full : new_mode_risk (lit 100) ≡ lit 30
unfolding numbers
new_mode_risk_full = refl

new_mode_risk_none : new_mode_risk (lit 0) ≡ lit 60
unfolding numbers
new_mode_risk_none = refl

new_mode_risk_bounds :
    {c : Float64} → Between (lit 0) c (lit 100) → Between (lit 30) (new_mode_risk c) (lit 60)
new_mode_risk_bounds {c} (l, h) = (
  subst (λ t. t ⊑ new_mode_risk c) new_mode_risk_full
      (new_mode_risk_anti h (lit_mono (omega arith))),
  subst (λ t. new_mode_risk c ⊑ t) new_mode_risk_none (new_mode_risk_anti l h),
)

-- The floor of 20 has no effect.
floor_is_idle : {x : Float64} → lit 30 ⊑ x → max_float x (lit 20) ≡ x
floor_is_idle {x} h = elim (max-cases (⊑_right h) (lit_mono {n = 20} (omega arith))) [
  | inl (l, e) ↦ e ∙ ⊑_antisym (⊑_trans (lit_mono (omega arith)) h) l
  | inr (l, e) ↦ e
]

abbrev IsUnregistered : UserProfileBehavior → Mode → Type 0
IsUnregistered p mode = contains p.registered_payment_modes mode ≡ false

new_mode_risk_lem :
    (mode : Mode) (p : UserProfileBehavior)
    → IsUnregistered p mode
    → calculate_mode_deviation_risk mode p ≡ new_mode_risk (confidence p.allowed_transactions)
unfolding calculate_mode_deviation_risk
new_mode_risk_lem mode p h =
    rw (h, calculate_profile_confidence_lem p)
      (floor_is_idle (new_mode_risk_bounds (confidence_bounds p.allowed_transactions)).0)

-- A registered mode has no risk, and any other has between 30 and 60 points: the floor of 20 in the
-- code is never reached.
pub calculate_mode_deviation_risk_bounds :
    (mode : Mode) (p : UserProfileBehavior)
    → ((contains p.registered_payment_modes mode ≡ true)
        × (calculate_mode_deviation_risk mode p ≡ lit 0))
      ⊎ ((contains p.registered_payment_modes mode ≡ false)
          × Between (lit 30) (calculate_mode_deviation_risk mode p) (lit 60))
unfolding calculate_mode_deviation_risk
calculate_mode_deviation_risk_bounds mode p =
    elim (Bool-cases (contains p.registered_payment_modes mode)) [
      | inl old ↦ inl (old, rw old)
      | inr new ↦ inr (
        new,
        subst (λ t. Between (lit 30) t (lit 60)) (sym (new_mode_risk_lem mode p new))
            (new_mode_risk_bounds (confidence_bounds p.allowed_transactions)),
      )
    ]

-- No mode has more risk than a new one would.
pub calculate_mode_deviation_risk-le :
    (mode : Mode) (p : UserProfileBehavior)
    → Between
        (lit 0)
        (calculate_mode_deviation_risk mode p)
        (new_mode_risk (confidence p.allowed_transactions))
calculate_mode_deviation_risk-le mode p = elim (calculate_mode_deviation_risk_bounds mode p) [
  | inl (old, e) ↦
      subst (λ t. Between (lit 0) t limit) (sym e)
        (lit_mono (omega arith), ⊑_trans (lit_mono (omega arith)) at_least_thirty)
  | inr (new, b) ↦ (
    ⊑_trans (lit_mono (omega arith)) b.0,
    subst (λ t. t ⊑ limit) (sym (new_mode_risk_lem mode p new)) (⊑_right at_least_thirty),
  )
]
  where
    limit : Float64
    limit = new_mode_risk (confidence p.allowed_transactions)

    at_least_thirty : lit 30 ⊑ limit
    at_least_thirty = (new_mode_risk_bounds (confidence_bounds p.allowed_transactions)).0

pub new_mode_risk-le : (a : ℤ) → Between (lit 0) (new_mode_risk (confidence a)) (lit 100)
new_mode_risk-le a = (
  ⊑_trans (lit_mono (omega arith)) (new_mode_risk_bounds (confidence_bounds a)).0,
  ⊑_trans (new_mode_risk_bounds (confidence_bounds a)).1 (lit_mono (omega arith)),
)

-- At 16 allowed transactions a new mode still exceeds 50 points, and at 17 no longer.
above_at_sixteen : lt (lit 50) (new_mode_risk (confidence (pos 16))) ≡ true
unfolding numbers
above_at_sixteen = refl

below_at_seventeen : lt (lit 50) (new_mode_risk (confidence (pos 17))) ≡ false
unfolding numbers
below_at_seventeen = refl

exceeds_by_count : (a : ℤ) → lt (lit 50) (new_mode_risk (confidence a)) ≡ leb_ℤ a (pos 16)
exceeds_by_count a = elim (Bool-cases (leb_ℤ a (pos 16))) [
  | inl few ↦
      lt-⊑ (lit_mono {n = 50} (omega arith))
        (new_mode_risk_anti (confidence_mono a (pos 16) (ground arith))
          (confidence_bounds (pos 16)).1)
        above_at_sixteen
      ∙ sym few
  | inr many ↦
      not_lt-⊑ (lit_mono {n = 50} (omega arith))
        (new_mode_risk_anti (confidence_mono (pos 17) a (ground arith)) (confidence_bounds a).1)
        below_at_seventeen
      ∙ sym many
]

fifty_not_below_zero : lt (lit 50) (lit 0) ≡ false
fifty_not_below_zero = lt-lit 50 0 (omega arith) (omega arith)

new_exceeds :
    (mode : Mode) (p : UserProfileBehavior)
    → IsUnregistered p mode
    → lt (lit 50) (calculate_mode_deviation_risk mode p)
      ≡ (not (contains p.registered_payment_modes mode) && leb_ℤ p.allowed_transactions (pos 16))
new_exceeds mode p new =
    ap (lt (lit 50)) (new_mode_risk_lem mode p new)
    ∙ exceeds_by_count p.allowed_transactions
    ∙ ap (λ b. not b && leb_ℤ p.allowed_transactions (pos 16)) (sym new)

-- A mode exceeds its threshold of 50 points exactly if it is new and the user has at most 16 allowed
-- transactions.
pub calculate_mode_deviation_risk-exceeds :
    (mode : Mode) (p : UserProfileBehavior)
    → lt threshold_mode_deviation (calculate_mode_deviation_risk mode p)
      ≡ (not (contains p.registered_payment_modes mode) && leb_ℤ p.allowed_transactions (pos 16))
unfolding calculate_mode_deviation_risk
calculate_mode_deviation_risk-exceeds mode p =
    elim (Bool-cases (contains p.registered_payment_modes mode)) [
      | inl old ↦ rw old fifty_not_below_zero
      | inr new ↦ new_exceeds mode p new
    ]

pub calculate_mode_deviation_risk_known :
    (mode : Mode) (p : UserProfileBehavior)
    → contains p.registered_payment_modes mode ≡ true
    → calculate_mode_deviation_risk mode p ≡ lit 0
unfolding calculate_mode_deviation_risk
calculate_mode_deviation_risk_known mode p h = rw h
