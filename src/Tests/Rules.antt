-- ===== src/Tests/Rules.antt =====
-- The analysis and its decisions, at concrete inputs.
use fraud_detection_lite.Prelude.{ℕ, ◌≡◌, ◌≢◌, ◌≤◌, ◌⊎◌, refl, not, ◌&&◌, ◌++◌, [], arith, leb}
use fraud_detection_lite.Prelude.Int.{pos, leb_ℤ}
use fraud_detection_lite.Float.Ops.{lt, to_int32}
use fraud_detection_lite.Float.Literals.{lit_mono}
use fraud_detection_lite.Constants.{
  lit, numbers, threshold_time_anomaly, trigger_factors_time_anomaly,
}
use fraud_detection_lite.Time.{hour}
use fraud_detection_lite.Repository.Models.{UserProfileBehavior, allow, flag, block}
use fraud_detection_lite.Risk.Factors.{
  contains, calculate_profile_confidence, calculate_amount_deviation_risk, z_score_amount_risk,
  calculate_frequency_spike_risk, calculate_mode_deviation_risk, calculate_time_anomaly_risk,
}
use fraud_detection_lite.Risk.Score.{
  trigger, half, tenth, calculate_aggregate_risk_score, dampen_risk_with_profile_confidence,
  determine_transaction_decision, analyze_transaction, analyze_bulk_transactions,
}
use fraud_detection_lite.Risk.Limits.{
  analyze_transaction-ne-block, analyze_transaction_trusted, analyze_transaction-final_risk_score,
  analyze_bulk_transactions-ne-block,
}
use fraud_detection_lite.Risk.Triggers.{
  report, calculate_time_anomaly_risk-unreported, analyze_transaction-triggered_factors,
}
use fraud_detection_lite.Risk.Overflow.{amd64, large_amount_lowest_risk}
use fraud_detection_lite.Service.Transaction.{append_modes, domain_profile, empty_row}
use fraud_detection_lite.Tests.Samples.{
  user_profile, user_profile-HasSaneAmounts, seasoned, night, request, bulk_request,
}

analyze_transaction-ne-block_example :
    (analyze_transaction amd64 request (user_profile 40 12) (pos 9) night).decision ≢ block
unfolding domain_profile
analyze_transaction-ne-block_example =
    analyze_transaction-ne-block amd64 request (user_profile 40 12) 9 night
      (user_profile-HasSaneAmounts 40 12) (omega arith) (omega arith)

analyze_transaction_trusted_example :
    let decision = (analyze_transaction amd64 request seasoned (pos 9) night).decision in
    (decision ≡ allow) ⊎ (decision ≡ flag)
unfolding domain_profile
analyze_transaction_trusted_example =
    analyze_transaction_trusted amd64 request seasoned 9 night (user_profile-HasSaneAmounts 40 36)
      (omega arith) (omega arith)

analyze_transaction-final_risk_score_example :
    (k : ℕ) × ((analyze_transaction amd64 request seasoned (pos 9) night).final_risk_score ≡ pos k)
    × (k ≤ 92)
analyze_transaction-final_risk_score_example =
    analyze_transaction-final_risk_score amd64 request seasoned 9 night
      (user_profile-HasSaneAmounts 40 36) (omega arith)

analyze_bulk_transactions-ne-block_example :
    let result = analyze_bulk_transactions amd64 bulk_request seasoned (pos 0) in
    (result.decision ≢ block) × ((k : ℕ) × (result.final_risk_score ≡ pos k) × (k ≤ 62))
analyze_bulk_transactions-ne-block_example =
    analyze_bulk_transactions-ne-block amd64 bulk_request seasoned
      (user_profile-HasSaneAmounts 40 36)

analyze_transaction-triggered_factors_example :
    (analyze_transaction amd64 request seasoned (pos 9) night).triggered_factors
    ≡ report
        (lt
          (lit 30)
          (calculate_amount_deviation_risk amd64 (to_int32 amd64 request.amount) seasoned))
        "AMOUNT_DEVIATION"
      ++ (report (leb 5 9) "FREQUENCY_SPIKE"
          ++ (report
                (not (contains seasoned.registered_payment_modes request.mode)
                  && leb_ℤ seasoned.allowed_transactions (pos 16))
                "NEW_MODE"
              ++ report (lt (lit 35) (calculate_time_anomaly_risk night seasoned)) "TIME_ANOMALY"))
analyze_transaction-triggered_factors_example =
    analyze_transaction-triggered_factors amd64 request seasoned 9 night (omega arith)

abbrev nobody : UserProfileBehavior
nobody = domain_profile (empty_row (pos 8))

calculate_time_anomaly_risk-unreported_example :
    trigger
      (calculate_time_anomaly_risk night nobody)
      threshold_time_anomaly
      trigger_factors_time_anomaly
    ≡ []
unfolding domain_profile
calculate_time_anomaly_risk-unreported_example =
    calculate_time_anomaly_risk-unreported night nobody refl

large_amount_lowest_risk_example :
    calculate_amount_deviation_risk amd64
      (to_int32 amd64 (lit 10_000_000_000_000_000))
      (user_profile 3 3)
    ≡ lit 10
unfolding domain_profile
large_amount_lowest_risk_example =
    large_amount_lowest_risk (lit 10_000_000_000_000_000) (user_profile 3 3)
      (lit_mono (omega arith)) refl refl (lit_mono (omega arith))

-- A sudden amount in a new mode at night, after nine others.
blocks_a_newcomer :
    (analyze_transaction amd64 request (user_profile 40 2) (pos 9) night).decision ≡ block
unfolding numbers analyze_transaction domain_profile append_modes calculate_profile_confidence
    calculate_amount_deviation_risk z_score_amount_risk calculate_frequency_spike_risk
    calculate_mode_deviation_risk calculate_time_anomaly_risk hour calculate_aggregate_risk_score
    dampen_risk_with_profile_confidence half tenth determine_transaction_decision
blocks_a_newcomer = refl
