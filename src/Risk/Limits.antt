-- ===== src/Risk/Limits.antt =====
-- What the analysis decides: the range of the stored score, and who can be blocked or challenged.
use mathlib.Core.Path.{subst}
use fraud_detection_lite.Prelude.{
  ℕ, ◌*◌, ◌/◌, ◌≤◌, ◌<◌, ◌^◌, ◌≡◌, ◌≢◌, ◌⊎◌, refl, sym, true, false, arith, lt→ltb,
}
use fraud_detection_lite.Prelude.Int.{ℤ, pos, ◌≤ℤ◌}
use fraud_detection_lite.Float.Ops.{Float64, fin, one_units, lt, to_int32}
use fraud_detection_lite.Float.Order.{◌⊑◌, finite, below_inf, infinite, ⊑_trans, ⊑_right, ⊑-lt}
use fraud_detection_lite.Float.Literals.{lit_mono, lit_lem, lt-lit}
use fraud_detection_lite.Constants.{lit, numbers}
use fraud_detection_lite.Time.{Time}
use fraud_detection_lite.Repository.Models.{UserProfileBehavior, Mode, allow, flag, block}
use fraud_detection_lite.Specs.Txn.{CreateTransactionRequest, CreateBulkTransactionRequest}
use fraud_detection_lite.Risk.Confidence.{Between, calculate_profile_confidence_lem}
use fraud_detection_lite.Risk.Factors.{
  calculate_amount_deviation_risk, calculate_frequency_spike_risk, calculate_mode_deviation_risk,
  calculate_time_anomaly_risk, calculate_profile_confidence,
}
use fraud_detection_lite.Risk.Amount.{HasSaneAmounts, calculate_amount_deviation_risk_bounds}
use fraud_detection_lite.Risk.Frequency.{
  calculate_frequency_spike_risk_bounds, calculate_frequency_spike_risk_lem,
}
use fraud_detection_lite.Risk.TimeOfDay.{calculate_time_anomaly_risk_bounds}
use fraud_detection_lite.Risk.NewMode.{calculate_mode_deviation_risk-le}
use fraud_detection_lite.Risk.Score.{
  calculate_aggregate_risk_score, dampen_risk_with_profile_confidence, analyze_transaction,
  analyze_bulk_transactions,
}
use fraud_detection_lite.Risk.Worst.{worst, worst_anti, worst-le-none, dampened-le-worst}
use fraud_detection_lite.Risk.Decision.{not_blocked, not_challenged}

-- The score that the analysis dampens, for a frequency risk.
abbrev final_score : (Float64 → ℤ) → ℤ → Mode → UserProfileBehavior → Float64 → Time → Float64
final_score platform amount mode p frequency t =
    dampen_risk_with_profile_confidence
      (calculate_aggregate_risk_score (calculate_amount_deviation_risk platform amount p) frequency
        (calculate_mode_deviation_risk mode p) (calculate_time_anomaly_risk t p))
      (calculate_profile_confidence p)

final_score-le-worst :
    (platform : Float64 → ℤ) (amount : ℤ) (mode : Mode) (p : UserProfileBehavior) (t : Time)
    {f limit : Float64}
    → HasSaneAmounts p
    → Between (lit 0) f limit
    → limit ⊑ lit 100
    → Between (lit 0) (final_score platform amount mode p f t) (worst limit p.allowed_transactions)
final_score-le-worst platform amount mode p t {f} {limit} h hf hl =
    subst
      (λ c.
        Between (lit 0)
          (dampen_risk_with_profile_confidence
            (calculate_aggregate_risk_score (calculate_amount_deviation_risk platform amount p) f
              (calculate_mode_deviation_risk mode p) (calculate_time_anomaly_risk t p))
            c)
          (worst limit p.allowed_transactions))
      (sym (calculate_profile_confidence_lem p))
      (dampened-le-worst (⊑_trans hf.0 hf.1, hl) p.allowed_transactions
        (calculate_amount_deviation_risk_bounds platform amount p h) hf
        (calculate_mode_deviation_risk-le mode p) (calculate_time_anomaly_risk_bounds t p))

-- The scores at which the worst case meets a threshold.
worst_at_twelve : lt (worst (lit 100) (pos 12)) (lit 80) ≡ true
unfolding numbers calculate_aggregate_risk_score
worst_at_twelve = refl

worst_at_thirty_two : lt (worst (lit 100) (pos 32)) (lit 60) ≡ true
unfolding numbers calculate_aggregate_risk_score
worst_at_thirty_two = refl

worst_of_bulk : worst (lit 0) (pos 0) ≡ lit 62
unfolding numbers calculate_aggregate_risk_score
worst_of_bulk = refl

worst_of_all : worst (lit 100) (pos 0) ≡ lit 92
unfolding numbers calculate_aggregate_risk_score
worst_of_all = refl

full : lit 100 ⊑ lit 100
full = lit_mono (omega arith)

-- Where the count allows at least m transactions and the worst case at m is below a threshold, so is
-- the score.
score_below :
    (a m : ℤ) (threshold : ℕ) {x limit : Float64}
    → Between (lit 0) limit (lit 100)
    → m ≤ℤ a
    → x ⊑ worst limit a
    → lt (worst limit m) (lit threshold) ≡ true
    → lt x (lit threshold) ≡ true
score_below a m threshold hl h hx e =
    ⊑-lt (⊑_trans hx (worst_anti hl m a h)) (⊑_right (worst_anti hl m a h)) (lit_mono (omega arith))
      e

whole_part :
    (platform : Float64 → ℤ) (n : ℕ) {x y : Float64}
    → x ⊑ y
    → y ≡ fin false (n * one_units)
    → n < 2147483648
    → (k : ℕ) × (to_int32 platform x ≡ pos k) × (k ≤ n)
unfolding to_int32
whole_part platform n (finite {a} {b} h) e l =
    (a / one_units, rw (lt→ltb (a / one_units) 2147483648 (ground arith)), ground arith)
whole_part platform n below_inf e l = cc
whole_part platform n infinite e l = cc

-- A score from 0 to n is stored as its whole part, on every platform.
stored :
    (platform : Float64 → ℤ) (n : ℕ) {x : Float64}
    → x ⊑ lit n
    → n < 2147483648
    → (k : ℕ) × (to_int32 platform x ≡ pos k) × (k ≤ n)
stored platform n h l = whole_part platform n h (lit_lem n (omega arith)) l

module _ (platform : Float64 → ℤ) (req : CreateTransactionRequest) (p : UserProfileBehavior) (n : ℕ)
    (t : Time) (sane : HasSaneAmounts p) (small : n < 2 ^ 31) where
  score_bounds :
      Between
        (lit 0)
        (final_score platform
          (to_int32 platform req.amount)
          req.mode
          p
          (calculate_frequency_spike_risk p (pos n))
          t)
        (worst (lit 100) p.allowed_transactions)
  score_bounds =
      final_score-le-worst platform (to_int32 platform req.amount) req.mode p t sane
        (calculate_frequency_spike_risk_bounds p n small) full

  -- With sane amounts in the profile and fewer than 2 ^ 31 recent transactions, a user with at least 12
  -- allowed transactions is never blocked, whatever the request and the hour.
  pub analyze_transaction-ne-block :
      pos 12 ≤ℤ p.allowed_transactions
      → (analyze_transaction platform req p (pos n) t).decision ≢ block
  unfolding analyze_transaction
  analyze_transaction-ne-block h = not_blocked _ p (
      score_below p.allowed_transactions (pos 12) 80 (lit_mono (omega arith), full) h score_bounds.1
        worst_at_twelve)

  -- With sane amounts in the profile and fewer than 2 ^ 31 recent transactions, a transaction of a user
  -- with at least 32 allowed ones is allowed or flagged, without a second factor.
  pub analyze_transaction_trusted :
      pos 32 ≤ℤ p.allowed_transactions
      → let decision = (analyze_transaction platform req p (pos n) t).decision in
        (decision ≡ allow) ⊎ (decision ≡ flag)
  unfolding analyze_transaction
  analyze_transaction_trusted h = not_challenged _ p (
      score_below p.allowed_transactions (pos 32) 60 (lit_mono (omega arith), full) h score_bounds.1
        worst_at_thirty_two)

  -- With sane amounts in the profile and fewer than 2 ^ 31 recent transactions, the stored score is a
  -- whole number from 0 to 92, whatever the platform makes of an int32 out of range.
  pub analyze_transaction-final_risk_score :
      (k : ℕ) × ((analyze_transaction platform req p (pos n) t).final_risk_score ≡ pos k) × (k ≤ 92)
  unfolding analyze_transaction
  analyze_transaction-final_risk_score =
      stored platform 92
        (subst
          (λ x.
            final_score platform (to_int32 platform req.amount) req.mode p
              (calculate_frequency_spike_risk p (pos n)) t
            ⊑ x)
          worst_of_all
          (⊑_trans score_bounds.1
            (worst-le-none (lit_mono (omega arith), full) p.allowed_transactions)))
        (omega arith)

module _ (platform : Float64 → ℤ) (req : CreateBulkTransactionRequest) (p : UserProfileBehavior)
    (sane : HasSaneAmounts p) where
  no_spike : Between (lit 0) (calculate_frequency_spike_risk p (pos 0)) (lit 0)
  no_spike =
      subst (λ x. Between (lit 0) x (lit 0))
        (sym (calculate_frequency_spike_risk_lem p 0 (omega arith)))
        (lit_mono (omega arith), lit_mono (omega arith))

  bulk_score :
      final_score platform
        (to_int32 platform req.amount)
        req.mode
        p
        (calculate_frequency_spike_risk p (pos 0))
        req.created_at
      ⊑ lit 62
  bulk_score =
      subst
        (λ x.
          final_score platform (to_int32 platform req.amount) req.mode p
            (calculate_frequency_spike_risk p (pos 0)) req.created_at
          ⊑ x)
        worst_of_bulk
        (⊑_trans
          (final_score-le-worst platform (to_int32 platform req.amount) req.mode p req.created_at
            sane no_spike (lit_mono (omega arith))).1
          (worst-le-none (lit_mono (omega arith), lit_mono (omega arith)) p.allowed_transactions))

  -- With sane amounts in the profile, a row of an upload, which is analysed with no recent
  -- transactions, is never blocked and is stored with a whole score from 0 to 62.
  pub analyze_bulk_transactions-ne-block :
      let result = analyze_bulk_transactions platform req p (pos 0) in
      (result.decision ≢ block) × ((k : ℕ) × (result.final_risk_score ≡ pos k) × (k ≤ 62))
  unfolding analyze_bulk_transactions
  analyze_bulk_transactions-ne-block = (
    not_blocked _ p (
        ⊑-lt bulk_score (lit_mono (omega arith)) (lit_mono (omega arith))
          (lt-lit 62 80 (omega arith) (omega arith))),
    stored platform 62 bulk_score (omega arith),
  )
