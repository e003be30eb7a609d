-- ===== src/Risk/Factors.antt =====
-- internal/pkg/helpers/txn.go: the profile's confidence and the four risk factors.
use fraud_detection_lite.Prelude.{
  ℕ, ◌-◌, Bool, false, not, ◌&&◌, ◌||◌, List, [], ◌∷◌, ltb, leb, if◌then◌else◌, str_eq,
}
use Prim.Native.Nat.{min}
use fraud_detection_lite.Prelude.Int.{ℤ, pos, ltb_ℤ, leb_ℤ, add64, sub64}
use fraud_detection_lite.Float.Ops.{
  Float64, from_ℤ, to_int32, add, sub, mul, div, lt, le, eq, min_float, max_float,
}
use fraud_detection_lite.Constants.{
  lit, threshold_frequency, risk_per_txn_after_threshold, min_transactions_for_profiling,
}
use fraud_detection_lite.Time.{Time, hour}
use fraud_detection_lite.Repository.Models.{Mode, UserProfileBehavior}

-- CalculateProfileConfidence
unfoldable pub calculate_profile_confidence : UserProfileBehavior → Float64
calculate_profile_confidence p =
    if leb_ℤ p.allowed_transactions (pos 0)
    then lit 0
    else min_float (mul (div (from_ℤ p.allowed_transactions) (lit 50)) (lit 100)) (lit 100)

-- CalculateAmountDeviationRisk where the profile has too little data: the amount is compared with
-- the maximum seen so far, as an int32. `platform` is what int32(x) gives where x is out of range.
unfoldable pub heuristic_amount_risk : (Float64 → ℤ) → ℤ → UserProfileBehavior → Float64
heuristic_amount_risk platform amount p =
    let seen = p.max_transaction_amount_seen in
    let ratio = div (from_ℤ amount) seen.float64 in
    if not seen.valid
    then lit 30
    else if ltb_ℤ (to_int32 platform seen.float64) amount
    then min_float (add (lit 20) (mul (sub ratio (lit 1)) (lit 30))) (lit 100)
    else lit 10

-- CalculateAmountDeviationRisk from the z-score on.
unfoldable pub z_score_amount_risk : Float64 → Float64 → Float64 → Float64
z_score_amount_risk avg_amount std_dev tx_amount =
    let z_score = div (sub tx_amount avg_amount) std_dev in
    if eq std_dev (lit 0)
    then if eq tx_amount avg_amount
      then lit 0
      else if lt avg_amount tx_amount
      then lit 100
      else lit 20
    else if le z_score (lit 1)
    then lit 0
    else min_float (mul (sub z_score (lit 1)) (lit 25)) (lit 100)

-- CalculateAmountDeviationRisk
unfoldable pub calculate_amount_deviation_risk : (Float64 → ℤ) → ℤ → UserProfileBehavior → Float64
calculate_amount_deviation_risk platform amount p =
    if not p.average_transaction_amount.valid
      || ltb_ℤ p.total_transactions min_transactions_for_profiling
    then heuristic_amount_risk platform amount p
    else z_score_amount_risk p.average_transaction_amount.float64
        (from_ℤ p.std_dev_transaction_amount.int32) (from_ℤ amount)

-- CalculateFrequencySpikeRisk, which does not read its profile.
unfoldable pub calculate_frequency_spike_risk : UserProfileBehavior → ℤ → Float64
calculate_frequency_spike_risk p recent_transaction_count =
    let current = add64 recent_transaction_count (pos 1) in
    let excess = from_ℤ (sub64 current threshold_frequency) in
    if leb_ℤ current threshold_frequency
    then lit 0
    else min_float (mul excess risk_per_txn_after_threshold) (lit 100)

-- slices.Contains
unfoldable pub contains : List Mode → Mode → Bool
contains [] m = false
contains (x ∷ xs) m = str_eq x m || contains xs m

-- CalculateModeDeviationRisk
unfoldable pub calculate_mode_deviation_risk : Mode → UserProfileBehavior → Float64
unfolding contains
calculate_mode_deviation_risk mode p =
    let reduction = mul (div (calculate_profile_confidence p) (lit 100)) (lit 30) in
    if contains p.registered_payment_modes mode
    then lit 0
    else max_float (sub (lit 60) reduction) (lit 20)

-- CalculateTimeAnomalyRisk where the profile has no usual hours.
unfoldable pub heuristic_time_risk : ℕ → Float64
heuristic_time_risk current =
    if leb 0 current && ltb current 5
    then lit 35
    else if leb 5 current && ltb current 7
    then lit 20
    else lit 5

unfoldable pub is_within_usual_hours : ℕ → ℕ → ℕ → Bool
is_within_usual_hours start end current =
    if leb start end
    then leb start current && leb current end
    else leb start current || leb current end

-- The distance to the usual hours, for an hour outside them. Every difference is of hours that a
-- test has put in order.
unfoldable pub hours_outside : ℕ → ℕ → ℕ → ℕ
hours_outside start end current =
    if leb start end
    then if ltb current start then start - current else current - end
    else if ltb end current && ltb current start
    then min (current - end) (start - current)
    else 0

-- CalculateTimeAnomalyRisk
unfoldable pub calculate_time_anomaly_risk : Time → UserProfileBehavior → Float64
unfolding heuristic_time_risk is_within_usual_hours hours_outside
calculate_time_anomaly_risk transaction_time p =
    let current = hour transaction_time in
    let start = hour p.usual_transaction_start_hour.time in
    let end = hour p.usual_transaction_end_hour.time in
    let risk = mul (from_ℤ (pos (hours_outside start end current))) (lit 10) in
    if not p.usual_transaction_start_hour.valid || not p.usual_transaction_end_hour.valid
    then heuristic_time_risk current
    else if is_within_usual_hours start end current
    then lit 0
    else min_float (if leb 0 current && ltb current 4 then add risk (lit 15) else risk) (lit 100)
