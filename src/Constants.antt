-- ===== src/Constants.antt =====
-- internal/pkg/constants/txn.go and app.go: weights, thresholds and defaults.
use fraud_detection_lite.Prelude.{ℕ, false, String}
use fraud_detection_lite.Prelude.Int.{ℤ, pos}
use fraud_detection_lite.Float.Ops.{Float64, constant, evaluation}

-- A whole constant such as 30.0.
unfoldable pub lit : ℕ → Float64
unfolding constant
lit n = constant false n 1

unfoldable pub weight_amount_deviation : Float64
unfolding constant
weight_amount_deviation = constant false 40 100

unfoldable pub weight_frequency_spike : Float64
unfolding constant
weight_frequency_spike = constant false 30 100

unfoldable pub weight_mode_deviation : Float64
unfolding constant
weight_mode_deviation = constant false 20 100

unfoldable pub weight_time_anomaly : Float64
unfolding constant
weight_time_anomaly = constant false 10 100

abbrev pub threshold_amount_deviation : Float64
threshold_amount_deviation = lit 30

abbrev pub threshold_frequency_spike : Float64
threshold_frequency_spike = lit 40

abbrev pub threshold_mode_deviation : Float64
threshold_mode_deviation = lit 50

abbrev pub threshold_time_anomaly : Float64
threshold_time_anomaly = lit 35

abbrev pub risk_threshold_allow : Float64
risk_threshold_allow = lit 30

abbrev pub risk_threshold_flag : Float64
risk_threshold_flag = lit 60

abbrev pub risk_threshold_mfa : Float64
risk_threshold_mfa = lit 80

abbrev pub threshold_frequency : ℤ
threshold_frequency = pos 3

abbrev pub risk_per_txn_after_threshold : Float64
risk_per_txn_after_threshold = lit 20

abbrev pub min_transactions_for_profiling : ℤ
min_transactions_for_profiling = pos 5

abbrev pub trigger_factors_amount_deviation : String
trigger_factors_amount_deviation = "AMOUNT_DEVIATION"

abbrev pub trigger_factors_frequency_spike : String
trigger_factors_frequency_spike = "FREQUENCY_SPIKE"

abbrev pub trigger_factors_new_mode : String
trigger_factors_new_mode = "NEW_MODE"

abbrev pub trigger_factors_time_anomaly : String
trigger_factors_time_anomaly = "TIME_ANOMALY"

-- The page of a listing.
abbrev pub default_transactions_limit : ℤ
default_transactions_limit = pos 20

abbrev pub default_transactions_offset : ℤ
default_transactions_offset = pos 0

-- What a test that runs the scores unfolds.
unfoldable pub numbers : Unit {0}
unfolding evaluation lit weight_amount_deviation weight_frequency_spike weight_mode_deviation
    weight_time_anomaly
numbers = tt
