-- ===== src/Risk/Score.antt =====
-- internal/pkg/helpers/txn.go: the aggregate score, its dampening, the triggered factors, the
-- decision, and the analysis that puts them together.
use fraud_detection_lite.Prelude.{false, List, [], ◌∷◌, ◌++◌, String, if◌then◌else◌}
use fraud_detection_lite.Prelude.Int.{ℤ, ltb_ℤ}
use fraud_detection_lite.Float.Ops.{Float64, constant, to_int32, add, sub, mul, div, lt, min_float}
use fraud_detection_lite.Constants.{
  lit, weight_amount_deviation, weight_frequency_spike, weight_mode_deviation, weight_time_anomaly,
  threshold_amount_deviation, threshold_frequency_spike, threshold_mode_deviation,
  threshold_time_anomaly, risk_threshold_allow, risk_threshold_flag, risk_threshold_mfa,
  min_transactions_for_profiling, trigger_factors_amount_deviation, trigger_factors_frequency_spike,
  trigger_factors_new_mode, trigger_factors_time_anomaly,
}
use fraud_detection_lite.Time.{Time}
use fraud_detection_lite.Repository.Models.{
  UserProfileBehavior, TransactionDecision, allow, flag, block, mfa_required,
}
use fraud_detection_lite.Specs.Txn.{
  CreateTransactionRequest, CreateBulkTransactionRequest, FraudAnalysisResult,
}
use fraud_detection_lite.Risk.Factors.{
  calculate_profile_confidence, calculate_amount_deviation_risk, calculate_frequency_spike_risk,
  calculate_mode_deviation_risk, calculate_time_anomaly_risk,
}

-- CalculateAggregateRiskScore
unfoldable pub calculate_aggregate_risk_score : Float64 → Float64 → Float64 → Float64 → Float64
calculate_aggregate_risk_score amount_risk frequency_risk mode_risk time_risk =
    let amount_part = mul amount_risk weight_amount_deviation in
    let frequency_part = mul frequency_risk weight_frequency_spike in
    let mode_part = mul mode_risk weight_mode_deviation in
    let time_part = mul time_risk weight_time_anomaly in
    min_float (add (add (add amount_part frequency_part) mode_part) time_part) (lit 100)

-- The literals 0.5 and 0.1.
unfoldable pub half : Float64
half = constant false 5 10

unfoldable pub tenth : Float64
tenth = constant false 1 10

-- DampenRiskWithProfileConfidence
unfoldable pub dampen_risk_with_profile_confidence : Float64 → Float64 → Float64
dampen_risk_with_profile_confidence raw_risk_score profile_confidence =
    let dampening_factor = sub (lit 1) (div profile_confidence (lit 200)) in
    let capped = if lt dampening_factor half then half else dampening_factor in
    let dampened_risk = mul raw_risk_score capped in
    let min_floor = mul raw_risk_score tenth in
    if lt dampened_risk min_floor then min_floor else dampened_risk

-- One `if risk > threshold { triggered = append(triggered, factor) }`.
abbrev pub trigger : Float64 → Float64 → String → List String
trigger risk threshold factor = if lt threshold risk then factor ∷ [] else []

-- DetermineTriggeredFactors
unfoldable pub determine_triggered_factors : Float64 → Float64 → Float64 → Float64 → List String
determine_triggered_factors amount_risk frequency_risk mode_risk time_risk =
    trigger amount_risk threshold_amount_deviation trigger_factors_amount_deviation
    ++ (trigger frequency_risk threshold_frequency_spike trigger_factors_frequency_spike
        ++ (trigger mode_risk threshold_mode_deviation trigger_factors_new_mode
            ++ trigger time_risk threshold_time_anomaly trigger_factors_time_anomaly))

-- DetermineTransactionDecision
unfoldable pub determine_transaction_decision : Float64 → UserProfileBehavior → TransactionDecision
determine_transaction_decision final_risk_score p =
    if ltb_ℤ p.total_transactions min_transactions_for_profiling
    then if lt final_risk_score (lit 60)
      then allow
      else if lt final_risk_score (lit 75)
      then flag
      else mfa_required
    else if lt final_risk_score risk_threshold_allow
    then allow
    else if lt final_risk_score risk_threshold_flag
    then flag
    else if lt final_risk_score risk_threshold_mfa
    then mfa_required
    else block

-- The part that AnalyzeTransaction and AnalyzeBulkTransactions share, from the four risks on.
unfoldable pub analyze_risks :
    (Float64 → ℤ)
    → UserProfileBehavior
    → Float64
    → Float64
    → Float64
    → Float64
    → FraudAnalysisResult
analyze_risks platform p amount_risk frequency_risk mode_risk time_risk =
    let raw = calculate_aggregate_risk_score amount_risk frequency_risk mode_risk time_risk in
    let confidence = calculate_profile_confidence p in
    let final = dampen_risk_with_profile_confidence raw confidence in
    record {
      message = "analysis result";
      decision = determine_transaction_decision final p;
      final_risk_score = to_int32 platform final;
      raw_risk_score = raw;
      profile_confidence = confidence;
      triggered_factors =
          determine_triggered_factors amount_risk frequency_risk mode_risk time_risk;
      amount_risk = amount_risk;
      frequency_risk = frequency_risk;
      mode_risk = mode_risk;
      time_risk = time_risk;
    }

-- AnalyzeTransaction
unfoldable pub analyze_transaction :
    (Float64 → ℤ) → CreateTransactionRequest → UserProfileBehavior → ℤ → Time → FraudAnalysisResult
unfolding analyze_risks
analyze_transaction platform req p recent_transaction_count transaction_time =
    analyze_risks platform p
      (calculate_amount_deviation_risk platform (to_int32 platform req.amount) p)
      (calculate_frequency_spike_risk p recent_transaction_count)
      (calculate_mode_deviation_risk req.mode p) (calculate_time_anomaly_risk transaction_time p)

-- AnalyzeBulkTransactions, which takes the time of the row.
unfoldable pub analyze_bulk_transactions :
    (Float64 → ℤ) → CreateBulkTransactionRequest → UserProfileBehavior → ℤ → FraudAnalysisResult
unfolding analyze_risks
analyze_bulk_transactions platform req p recent_transaction_count =
    analyze_risks platform p
      (calculate_amount_deviation_risk platform (to_int32 platform req.amount) p)
      (calculate_frequency_spike_risk p recent_transaction_count)
      (calculate_mode_deviation_risk req.mode p) (calculate_time_anomaly_risk req.created_at p)
