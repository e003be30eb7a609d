-- ===== src/Tests/Profiles.antt =====
-- The update of the profile, at concrete inputs.
use fraud_detection_lite.Prelude.{◌≡◌, refl, arith}
use fraud_detection_lite.Constants.{lit}
use fraud_detection_lite.Repository.Models.{allow}
use fraud_detection_lite.Risk.Factors.{calculate_mode_deviation_risk, calculate_time_anomaly_risk}
use fraud_detection_lite.Service.Transaction.{domain_profile}
use fraud_detection_lite.Time.{hour}
use fraud_detection_lite.Profile.Update.{apply_transaction_to_profile}
use fraud_detection_lite.Profile.Counts.{HasCounts}
use fraud_detection_lite.Profile.Behaviour.{HasWindow, apply_transaction_to_profile-learns}
use fraud_detection_lite.Tests.Samples.{seasoned, night}

seasoned-HasCounts : HasCounts seasoned
unfolding domain_profile
seasoned-HasCounts = record { nonneg = omega arith; ordered = omega arith }

seasoned-HasWindow :
    HasWindow seasoned.usual_transaction_start_hour seasoned.usual_transaction_end_hour
unfolding domain_profile hour
seasoned-HasWindow = record { start_known = refl; end_known = refl; ordered = omega arith }

apply_transaction_to_profile-learns_example :
    let q = apply_transaction_to_profile seasoned (lit 9000) "CARD" night allow in
    (calculate_mode_deviation_risk "CARD" q ≡ lit 0)
    × (calculate_time_anomaly_risk night q ≡ lit 0)
    × HasWindow q.usual_transaction_start_hour q.usual_transaction_end_hour
apply_transaction_to_profile-learns_example =
    apply_transaction_to_profile-learns seasoned (lit 9000) "CARD" night allow refl
