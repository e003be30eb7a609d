-- ===== src/Tests/Scores.antt =====
-- The scores, at concrete inputs.
use Prim.Native.Nat.{min}
use fraud_detection_lite.Prelude.{
  ◌+◌, ◌-◌, ◌*◌, ◌%◌, ◌≡◌, ◌⊎◌, refl, true, false, arith, leb, if◌then◌else◌,
}
use fraud_detection_lite.Prelude.Int.{pos}
use fraud_detection_lite.Float.Ops.{lt, mul, sub, div}
use fraud_detection_lite.Float.Literals.{lit_mono}
use fraud_detection_lite.Constants.{lit, numbers}
use fraud_detection_lite.Time.{hour}
use fraud_detection_lite.Risk.Confidence.{Between}
use fraud_detection_lite.Risk.Factors.{
  contains, z_score_amount_risk, calculate_profile_confidence, calculate_amount_deviation_risk,
  calculate_frequency_spike_risk, calculate_mode_deviation_risk, calculate_time_anomaly_risk,
}
use fraud_detection_lite.Risk.Score.{dampen_risk_with_profile_confidence}
use fraud_detection_lite.Risk.Frequency.{calculate_frequency_spike_risk_lem}
use fraud_detection_lite.Risk.TimeOfDay.{hours_away, late_points, calculate_time_anomaly_risk_lem}
use fraud_detection_lite.Risk.NewMode.{calculate_mode_deviation_risk_bounds}
use fraud_detection_lite.Risk.Total.{dampen_risk_with_profile_confidence_lem}
use fraud_detection_lite.Risk.Overflow.{amd64}
use fraud_detection_lite.Service.Transaction.{domain_profile}
use fraud_detection_lite.Tests.Samples.{seasoned, night}

-- 36 allowed transactions of 50 give 72 points of confidence.
confidence_of_36 : calculate_profile_confidence seasoned ≡ lit 72
unfolding numbers calculate_profile_confidence domain_profile
confidence_of_36 = refl

-- Six hours before nine, and before four o'clock.
time_risk_of_night : calculate_time_anomaly_risk night seasoned ≡ lit 75
unfolding numbers calculate_time_anomaly_risk domain_profile hour
time_risk_of_night = refl

-- 1700 lies 3.5 standard deviations of 200 above the average of 1000.
amount_risk_of_1700 : lt (calculate_amount_deviation_risk amd64 (pos 1700) seasoned) (lit 63) ≡ true
unfolding numbers calculate_amount_deviation_risk z_score_amount_risk domain_profile
amount_risk_of_1700 = refl

calculate_frequency_spike_risk_lem_example :
    calculate_frequency_spike_risk seasoned (pos 4) ≡ lit (min 100 (20 * (4 - 2)))
calculate_frequency_spike_risk_lem_example =
    calculate_frequency_spike_risk_lem seasoned 4 (omega arith)

calculate_mode_deviation_risk_bounds_example :
    ((contains seasoned.registered_payment_modes "CARD" ≡ true)
      × (calculate_mode_deviation_risk "CARD" seasoned ≡ lit 0))
    ⊎ ((contains seasoned.registered_payment_modes "CARD" ≡ false)
        × Between (lit 30) (calculate_mode_deviation_risk "CARD" seasoned) (lit 60))
calculate_mode_deviation_risk_bounds_example = calculate_mode_deviation_risk_bounds "CARD" seasoned

calculate_time_anomaly_risk_lem_example :
    let start = hour seasoned.usual_transaction_start_hour.time in
    let end = hour seasoned.usual_transaction_end_hour.time in
    let current = hour night in
    calculate_time_anomaly_risk night seasoned ≡ (
      if leb ((current + 24 - start) % 24) ((end + 24 - start) % 24)
      then lit 0
      else lit (min 100 (10 * hours_away start end current + late_points current)))
unfolding domain_profile
calculate_time_anomaly_risk_lem_example = calculate_time_anomaly_risk_lem night seasoned refl refl

dampen_risk_with_profile_confidence_lem_example :
    dampen_risk_with_profile_confidence (lit 80) (lit 72)
    ≡ mul (lit 80) (sub (lit 1) (div (lit 72) (lit 200)))
dampen_risk_with_profile_confidence_lem_example =
    dampen_risk_with_profile_confidence_lem (lit_mono (omega arith), lit_mono (omega arith))
      (lit_mono (omega arith), lit_mono (omega arith))
