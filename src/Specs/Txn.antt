-- ===== src/Specs/Txn.antt =====
-- internal/pkg/specs/txn.go: the transaction requests, their validation, and the responses.
pub mod Validation
use fraud_detection_lite.Prelude.{String, List, Bool, ◌&&◌, ◌||◌, not, str_eq}
use fraud_detection_lite.Prelude.Int.{ℤ}
use fraud_detection_lite.Float.Ops.{Float64, eq, lt}
use fraud_detection_lite.Constants.{lit}
use fraud_detection_lite.Time.{Time}
use fraud_detection_lite.Repository.Models.{
  TransactionDecision, Mode, mode_upi, mode_card, mode_netbanking,
}
use fraud_detection_lite.Specs.Error.{
  Result, ok, ◌>>◌, refuse_if, invalid_body, missing_amount_in_request, missing_mode_in_request,
  amount_out_of_range, invalid_payment_mode,
}

pub record CreateTransactionRequest : Type 0 where
  pub amount : Float64
  pub mode : String

pub record CreateBulkTransactionRequest : Type 0 where
  pub amount : Float64
  pub mode : String
  pub created_at : Time

pub record FraudAnalysisResult : Type 0 where
  pub message : String
  pub decision : TransactionDecision
  pub final_risk_score : ℤ
  pub raw_risk_score : Float64
  pub profile_confidence : Float64
  pub triggered_factors : List String
  pub amount_risk : Float64
  pub frequency_risk : Float64
  pub mode_risk : Float64
  pub time_risk : Float64

pub record CreateTransactionResponse : Type 0 where
  pub transaction_id : ℤ
  pub decision : TransactionDecision
  pub risk_score : ℤ
  pub triggered_factors : List String
  pub created_at : Time

pub record BulkProcessResponse : Type 0 where
  pub job_id : String
  pub status : String
  pub processed : ℤ
  pub success : ℤ
  pub failed : ℤ

abbrev pub is_payment_mode : Mode → Bool
is_payment_mode m = str_eq m mode_upi || str_eq m mode_card || str_eq m mode_netbanking

-- CreateTransactionRequest.Validate; `ok` is its nil error.
unfoldable pub validate : CreateTransactionRequest → Result (Unit {0})
validate r = do
  refuse_if (eq r.amount (lit 0) && str_eq r.mode "") invalid_body
  refuse_if (eq r.amount (lit 0)) missing_amount_in_request
  refuse_if (str_eq r.mode "") missing_mode_in_request
  refuse_if (lt r.amount (lit 0) || lt (lit 10_000_000_000_000_000) r.amount) amount_out_of_range
  refuse_if (not (is_payment_mode r.mode)) invalid_payment_mode
  ok tt
