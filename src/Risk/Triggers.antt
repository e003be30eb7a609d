-- ===== src/Risk/Triggers.antt =====
-- Which factors the analysis reports, in terms of the counts and the hours.
use Prim.Native.Nat.{min}
use mathlib.Core.Path.{ap₂}
use fraud_detection_lite.Prelude.{
  ℕ, ◌-◌, ◌*◌, ◌<◌, ◌^◌, ◌≡◌, ap, ◌∙◌, Bool, false, not, ◌&&◌, arith, ltb, leb, List, [], ◌∷◌, ◌++◌,
  if◌then◌else◌, String,
}
use fraud_detection_lite.Prelude.Int.{ℤ, pos, leb_ℤ}
use fraud_detection_lite.Float.Ops.{Float64, lt, to_int32}
use fraud_detection_lite.Float.Order.{⊑→not_lt}
use fraud_detection_lite.Float.Literals.{lt-lit}
use fraud_detection_lite.Constants.{
  lit, threshold_frequency_spike, threshold_time_anomaly, trigger_factors_time_anomaly,
}
use fraud_detection_lite.Time.{Time}
use fraud_detection_lite.Repository.Models.{UserProfileBehavior}
use fraud_detection_lite.Specs.Txn.{CreateTransactionRequest}
use fraud_detection_lite.Risk.Factors.{
  contains, calculate_amount_deviation_risk, calculate_frequency_spike_risk,
  calculate_time_anomaly_risk,
}
use fraud_detection_lite.Risk.Frequency.{calculate_frequency_spike_risk_lem}
use fraud_detection_lite.Risk.TimeOfDay.{calculate_time_anomaly_risk_unknown}
use fraud_detection_lite.Risk.NewMode.{calculate_mode_deviation_risk-exceeds}
use fraud_detection_lite.Risk.Score.{determine_triggered_factors, trigger, analyze_transaction}

-- The factor, if the condition holds.
abbrev pub report : Bool → String → List String
report b factor = if b then factor ∷ [] else []

frequency-exceeds :
    (p : UserProfileBehavior) (n : ℕ)
    → n < 2 ^ 31
    → lt threshold_frequency_spike (calculate_frequency_spike_risk p (pos n)) ≡ leb 5 n
frequency-exceeds p n h =
    ap (lt (lit 40)) (calculate_frequency_spike_risk_lem p n h)
    ∙ lt-lit 40 (min 100 (20 * (n - 2))) (omega arith) (omega arith)
    ∙ five n
  where
    five : (k : ℕ) → ltb 40 (min 100 (20 * (k - 2))) ≡ leb 5 k
    five k = ground arith

-- Without known usual hours the time risk never exceeds its threshold, so that TIME_ANOMALY is
-- reported at no hour of the day.
pub calculate_time_anomaly_risk-unreported :
    (t : Time) (p : UserProfileBehavior)
    → (p.usual_transaction_start_hour.valid && p.usual_transaction_end_hour.valid) ≡ false
    → trigger (calculate_time_anomaly_risk t p) threshold_time_anomaly trigger_factors_time_anomaly
      ≡ []
calculate_time_anomaly_risk-unreported t p h =
    ap (λ b. report b "TIME_ANOMALY") (⊑→not_lt (calculate_time_anomaly_risk_unknown t p h).1)

module _ (platform : Float64 → ℤ) (req : CreateTransactionRequest) (p : UserProfileBehavior) (n : ℕ)
    (t : Time) (small : n < 2 ^ 31) where
  -- With fewer than 2 ^ 31 recent transactions, the reported factors are, in this order: an amount risk above 30; at least five earlier transactions
  -- in the window; a mode that is new to a user with at most 16 allowed transactions; a time risk
  -- above 35.
  pub analyze_transaction-triggered_factors :
      (analyze_transaction platform req p (pos n) t).triggered_factors
      ≡ report
          (lt (lit 30) (calculate_amount_deviation_risk platform (to_int32 platform req.amount) p))
          "AMOUNT_DEVIATION"
        ++ (report (leb 5 n) "FREQUENCY_SPIKE"
            ++ (report
                  (not (contains p.registered_payment_modes req.mode)
                    && leb_ℤ p.allowed_transactions (pos 16))
                  "NEW_MODE"
                ++ report (lt (lit 35) (calculate_time_anomaly_risk t p)) "TIME_ANOMALY"))
  unfolding analyze_transaction determine_triggered_factors
  analyze_transaction-triggered_factors =
      ap₂
        (λ f m.
          report
            (lt (lit 30)
              (calculate_amount_deviation_risk platform (to_int32 platform req.amount) p))
            "AMOUNT_DEVIATION"
          ++ (report f "FREQUENCY_SPIKE"
              ++ (report m "NEW_MODE"
                  ++ report (lt (lit 35) (calculate_time_anomaly_risk t p)) "TIME_ANOMALY")))
        (frequency-exceeds p n small) (calculate_mode_deviation_risk-exceeds req.mode p)
