-- ===== src/Repository/Models.antt =====
-- internal/repository/models.go: the database's enumerations and rows.
use fraud_detection_lite.Prelude.{List, String, Bool}
use fraud_detection_lite.Prelude.Int.{ℤ}
use fraud_detection_lite.Float.Ops.{Float64}
use fraud_detection_lite.Time.{Time}

-- A Go string type: a value need not be one of the three constants.
abbrev pub Mode : Type 0
Mode = String

abbrev pub mode_upi : Mode
mode_upi = "UPI"

abbrev pub mode_card : Mode
mode_card = "CARD"

abbrev pub mode_netbanking : Mode
mode_netbanking = "NETBANKING"

pub data TransactionDecision : Type 0 where
  allow flag block mfa_required : TransactionDecision

-- pgtype.Float8, pgtype.Int4 and pgtype.Timestamp: a value and whether it is not NULL.
pub record Float8 : Type 0 where
  pub float64 : Float64
  pub valid : Bool

pub record Int4 : Type 0 where
  pub int32 : ℤ
  pub valid : Bool

pub record Timestamp : Type 0 where
  pub time : Time
  pub valid : Bool

pub record UserProfileBehavior : Type 0 where
  pub user_id : ℤ
  pub average_transaction_amount : Float8
  pub max_transaction_amount_seen : Float8
  pub average_number_of_transactions_per_day : Int4
  pub registered_payment_modes : List Mode
  pub usual_transaction_start_hour : Timestamp
  pub usual_transaction_end_hour : Timestamp
  pub total_transactions : ℤ
  pub allowed_transactions : ℤ
  pub updated_at : Timestamp
  pub std_dev_transaction_amount : Int4

pub record Transaction : Type 0 where
  pub id : ℤ
  pub user_id : ℤ
  pub amount : Float64
  pub mode : Mode
  pub risk_score : ℤ
  pub triggered_factors : List String
  pub decision : TransactionDecision
  pub amount_deviation_score : ℤ
  pub frequency_deviation_score : ℤ
  pub mode_deviation_score : ℤ
  pub time_deviation_score : ℤ
  pub created_at : Timestamp
  pub updated_at : Timestamp

pub record User : Type 0 where
  pub id : ℤ
  pub name : String
  pub email : String
  pub hashed_pass : String
  pub created_at : Timestamp
  pub updated_at : Timestamp
