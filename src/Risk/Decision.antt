-- ===== src/Risk/Decision.antt =====
-- What DetermineTransactionDecision decides, by the score.
use fraud_detection_lite.Prelude.{ℕ, ◌≤◌, ◌≡◌, ◌≢◌, ◌⊎◌, true, arith}
use fraud_detection_lite.Float.Ops.{Float64, lt}
use fraud_detection_lite.Float.Order.{◌⊑◌, ⊑_right, ⊑-lt}
use fraud_detection_lite.Float.Literals.{lit_mono}
use fraud_detection_lite.Constants.{lit}
use fraud_detection_lite.Repository.Models.{
  UserProfileBehavior, TransactionDecision, allow, flag, block, mfa_required,
}
use fraud_detection_lite.Risk.Score.{determine_transaction_decision}

below : (n : ℕ) {x y : Float64} → x ⊑ y → lt y (lit n) ≡ true → lt x (lit n) ≡ true
below n h e = ⊑-lt h (⊑_right h) (lit_mono {n = n} (omega arith)) e

-- Below 80 points nobody is blocked.
pub not_blocked :
    (final : Float64) (p : UserProfileBehavior)
    → lt final (lit 80) ≡ true
    → determine_transaction_decision final p ≢ block
unfolding determine_transaction_decision
not_blocked final p h = ground arith

-- Below 60 points a transaction is allowed or flagged.
pub not_challenged :
    (final : Float64) (p : UserProfileBehavior)
    → lt final (lit 60) ≡ true
    → (determine_transaction_decision final p ≡ allow)
      ⊎ (determine_transaction_decision final p ≡ flag)
unfolding determine_transaction_decision
not_challenged final p h = ground arith

abbrev pub severity : TransactionDecision → ℕ
severity allow = 0
severity flag = 1
severity mfa_required = 2
severity block = 3

-- For one profile, a higher score never gets a milder decision, where allowing is the mildest, then
-- flagging, then asking for a second factor, then blocking.
determine_transaction_decision_mono :
    (x y : Float64) (p : UserProfileBehavior)
    → x ⊑ y
    → severity (determine_transaction_decision x p) ≤ severity (determine_transaction_decision y p)
unfolding determine_transaction_decision
determine_transaction_decision_mono x y p h =
    ground (arith, below 30 h, below 60 h, below 75 h, below 80 h)
