-- ===== src/Risk/Amount.antt =====
-- What CalculateAmountDeviationRisk gives: between 0 and 100 points.
use mathlib.Core.Path.{subst}
use fraud_detection_lite.Prelude.{
  ℕ, zero, suc, ◌+◌, ◌*◌, ◌/◌, ◌≤◌, ◌<◌, ◌≡◌, refl, sym, ap, ◌∙◌, true, false, arith, Bool-cases,
  inl, inr, lt→ltb, not, ◌||◌, if◌then◌else◌,
}
use fraud_detection_lite.Prelude.Int.{ℤ, pos, negsuc, pos_part, neg_part, ltb_ℤ}
use fraud_detection_lite.Float.Ops.{
  Float64, inf, fin, one_units, rounded, from_ℤ, to_int32, add, sub, mul, div, lt, min_float,
  is_finite,
}
use fraud_detection_lite.Float.Order.{◌⊑◌, finite, below_inf, infinite, ⊑_trans, ⊑_right, positive}
use fraud_detection_lite.Float.Monotone.{add_⊑, mul_⊑, div_⊑, sub_⊑}
use fraud_detection_lite.Float.MinMax.{min_⊑_right, ⊑_min}
use fraud_detection_lite.Float.Literals.{
  lit_lem, lit_mono, lit-IsPositive, sub-lit, add-lit, mul-lit, rounded_exact, from_ℤ-pos,
}
use fraud_detection_lite.Constants.{lit, min_transactions_for_profiling}
use fraud_detection_lite.Repository.Models.{UserProfileBehavior}
use fraud_detection_lite.Risk.Factors.{heuristic_amount_risk, calculate_amount_deviation_risk}
use fraud_detection_lite.Risk.Confidence.{Between}
use fraud_detection_lite.Risk.ZScore.{z_score_amount_risk_bounds}

-- The amounts of a profile are numbers: a finite average, a maximum that is at least +0 and fits an
-- int32, and a standard deviation that is an int32.
pub record HasSaneAmounts (p : UserProfileBehavior) : Type 0 where
  pub average_finite : is_finite p.average_transaction_amount.float64 ≡ true
  pub maximum_nonneg : lit 0 ⊑ p.max_transaction_amount_seen.float64
  pub maximum_fits : lt p.max_transaction_amount_seen.float64 (lit 2147483648) ≡ true
  pub deviation_fits :
      let d = p.std_dev_transaction_amount.int32 in pos_part d + neg_part d ≤ 2147483648

self_ratio : (a : ℕ) → 0 < a → div (fin false a) (fin false a) ≡ lit 1
unfolding div
self_ratio zero h = absurd (omega arith)
self_ratio (suc a) h =
    ap (λ (t : ℕ). rounded false t (suc a)) (one_times one_units (suc a))
    ∙ rounded_exact false 1 (suc a) (omega arith) (omega arith)
    ∙ sym (lit_lem 1 (omega arith))
  where
    one_times : (u b : ℕ) → b * u ≡ 1 * u * b
    one_times u b = omega arith

one_below_inf : lit 1 ⊑ inf false
one_below_inf = subst (λ t. t ⊑ inf false) (sym (lit_lem 1 (omega arith))) below_inf

-- A positive amount over a maximum of zero is infinite.
zero_ratio : {u : ℕ} {x : Float64} → 0 < u → fin false u ⊑ x → lit 1 ⊑ div x (fin false 0)
unfolding div
zero_ratio h (finite {b = zero} k) = absurd (omega arith)
zero_ratio h (finite {b = suc b} k) = one_below_inf
zero_ratio h below_inf = one_below_inf

-- An amount of at least one that reaches the maximum has a ratio of at least one.
ratio-ge-one : (x : Float64) (a : ℕ) → fin false a ⊑ x → lit 1 ⊑ x → lit 1 ⊑ div x (fin false a)
ratio-ge-one x (suc a) h k =
    subst (λ t. t ⊑ div x (fin false (suc a))) (self_ratio (suc a) (omega arith))
      (div_⊑ h (positive (omega arith)))
ratio-ge-one x zero h k =
    zero_ratio {u = 1 * one_units} (omega arith) (subst (λ t. t ⊑ x) (lit_lem 1 (omega arith)) k)

-- Beyond the maximum the risk starts at 20.
excess_risk_bounds :
    (ratio : Float64)
    → lit 1 ⊑ ratio
    → Between
        (lit 20)
        (min_float (add (lit 20) (mul (sub ratio (lit 1)) (lit 30))) (lit 100))
        (lit 100)
excess_risk_bounds ratio h = (
  ⊑_min from_twenty (lit_mono (omega arith)),
  min_⊑_right (⊑_right from_twenty) (lit_mono (omega arith)),
)
  where
    twenty : add (lit 20) (mul (sub (lit 1) (lit 1)) (lit 30)) ≡ lit 20
    twenty =
        ap (λ t. add (lit 20) (mul t (lit 30))) (sub-lit 1 1 (omega arith) (omega arith))
        ∙ ap (add (lit 20)) (mul-lit 0 30 (omega arith) (omega arith) (omega arith))
        ∙ add-lit 20 0 (omega arith)

    from_twenty : lit 20 ⊑ add (lit 20) (mul (sub ratio (lit 1)) (lit 30))
    from_twenty =
        subst (λ t. t ⊑ add (lit 20) (mul (sub ratio (lit 1)) (lit 30))) twenty
          (add_⊑ (lit_mono {m = 20} (omega arith)) (
            mul_⊑ (sub_⊑ (lit-IsPositive 1 (omega arith) (omega arith)) (lit_mono (omega arith)) h)
              (lit-IsPositive 30 (omega arith) (omega arith))))

as_units :
    {x m : Float64} (u : ℕ)
    → x ⊑ m
    → lt m (fin false u) ≡ true
    → (a : ℕ) × (m ≡ fin false a) × (a < u)
unfolding lt
as_units u (finite {b} h) k = (b, refl, ground arith)
as_units u below_inf k = cc
as_units u infinite k = cc

truncated :
    (platform : Float64 → ℤ) (a : ℕ)
    → a < 2147483648 * one_units
    → to_int32 platform (fin false a) ≡ pos (a / one_units)
unfolding to_int32
truncated platform a h = rw (lt→ltb (a / one_units) 2147483648 (omega arith))

-- An amount above the whole part of the maximum is above the maximum.
exceeds :
    (amount : ℤ) (a : ℕ)
    → a < 2147483648 * one_units
    → ltb_ℤ (pos (a / one_units)) amount ≡ true
    → lit 1 ⊑ div (from_ℤ amount) (fin false a)
exceeds (negsuc n) a h k = absurd (ground arith)
exceeds (pos n) a h k =
    ratio-ge-one (from_ℤ (pos n)) a (⊑_trans below_next (reaches (q + 1) (ground arith)))
      (reaches 1 (ground arith))
  where
    q : ℕ
    q = a / one_units

    reaches : (m : ℕ) → m ≤ n → lit m ⊑ from_ℤ (pos n)
    reaches m l = subst (λ t. lit m ⊑ t) (sym (from_ℤ-pos n)) (lit_mono l)

    below_next : fin false a ⊑ lit (q + 1)
    below_next =
        subst (λ t. fin false a ⊑ t) (sym (lit_lem (q + 1) (omega arith))) (finite (omega arith))

module _ (platform : Float64 → ℤ) (amount : ℤ) where
  -- The comparison with a known maximum.
  abbrev compared : Float64 → Float64
  compared seen =
      if ltb_ℤ (to_int32 platform seen) amount
      then min_float (add (lit 20) (mul (sub (div (from_ℤ amount) seen) (lit 1)) (lit 30)))
          (lit 100)
      else lit 10

  compared_bounds_units :
      (a : ℕ) → a < 2147483648 * one_units → Between (lit 10) (compared (fin false a)) (lit 100)
  compared_bounds_units a h =
      rw (truncated platform a h) (elim (Bool-cases (ltb_ℤ (pos (a / one_units)) amount)) [
        | inl more ↦ rw more (
          ⊑_trans (lit_mono (omega arith)) (excess_risk_bounds _ (exceeds amount a h more)).0,
          (excess_risk_bounds _ (exceeds amount a h more)).1,
        )
        | inr less ↦ rw less (lit_mono (omega arith), lit_mono (omega arith))
      ])

  compared_bounds :
      (seen : Float64)
      → lit 0 ⊑ seen
      → lt seen (lit 2147483648) ≡ true
      → Between (lit 10) (compared seen) (lit 100)
  compared_bounds seen h k =
      let limit : lt seen (fin false (2147483648 * one_units)) ≡ true =
        ap (lt seen) (sym (lit_lem 2147483648 (omega arith))) ∙ k in
      let (a, e, l) = as_units (2147483648 * one_units) h limit in
      subst (λ t. Between (lit 10) (compared t) (lit 100)) (sym e) (compared_bounds_units a l)

heuristic_amount_risk_bounds :
    (platform : Float64 → ℤ) (amount : ℤ) (p : UserProfileBehavior)
    → lit 0 ⊑ p.max_transaction_amount_seen.float64
    → lt p.max_transaction_amount_seen.float64 (lit 2147483648) ≡ true
    → Between (lit 10) (heuristic_amount_risk platform amount p) (lit 100)
unfolding heuristic_amount_risk
heuristic_amount_risk_bounds platform amount p h k =
    elim (Bool-cases p.max_transaction_amount_seen.valid) [
      | inl known ↦
          rw known (compared_bounds platform amount p.max_transaction_amount_seen.float64 h k)
      | inr unknown ↦ rw unknown (lit_mono (omega arith), lit_mono (omega arith))
    ]

-- With sane amounts in the profile the amount risk lies between 0 and 100, for every amount and
-- whatever the platform makes of an int32 out of range.
pub calculate_amount_deviation_risk_bounds :
    (platform : Float64 → ℤ) (amount : ℤ) (p : UserProfileBehavior)
    → HasSaneAmounts p
    → Between (lit 0) (calculate_amount_deviation_risk platform amount p) (lit 100)
unfolding calculate_amount_deviation_risk
calculate_amount_deviation_risk_bounds platform amount p h =
    elim (Bool-cases (
      not p.average_transaction_amount.valid
      || ltb_ℤ p.total_transactions min_transactions_for_profiling)) [
        | inl few ↦ rw few (
            from_heuristic
              (heuristic_amount_risk_bounds platform amount p h.maximum_nonneg h.maximum_fits))
        | inr many ↦ rw many (
            z_score_amount_risk_bounds p.average_transaction_amount.float64
              p.std_dev_transaction_amount.int32 amount h.average_finite h.deviation_fits)
      ]
  where
    from_heuristic : {x : Float64} → Between (lit 10) x (lit 100) → Between (lit 0) x (lit 100)
    from_heuristic (l, u) = (⊑_trans (lit_mono (omega arith)) l, u)
