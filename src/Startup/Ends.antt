-- ===== src/Startup/Ends.antt =====
-- cmd/main.go: what is open and what is closed as the process runs and when it ends.
use fraud_detection_lite.Specs.Error.{Error}
