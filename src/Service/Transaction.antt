-- ===== src/Service/Transaction.antt =====
-- internal/service/txn_service.go: CreateTransaction.
pub mod Inserted
use fraud_detection_lite.Prelude.{List, [], ◌∷◌, ◌++◌, String, false, true, ◌≡◌, refl}
use fraud_detection_lite.Prelude.Int.{ℤ, pos}
use fraud_detection_lite.Float.Ops.{Float64, to_int32}
use fraud_detection_lite.Constants.{lit}
use fraud_detection_lite.Time.{Time, zero_time}
use fraud_detection_lite.Specs.Error.{Result, ok, err}
use fraud_detection_lite.Specs.Txn.{
  CreateTransactionRequest, CreateTransactionResponse, FraudAnalysisResult,
}
use fraud_detection_lite.Repository.Models.{Mode, Float8, Int4, Timestamp, UserProfileBehavior}
use fraud_detection_lite.Repository.Queries.{
  Queries, GetUserProfileByUserIdRow, CreateTransactionParams, CreateTransactionRow,
}
use fraud_detection_lite.Risk.Score.{analyze_transaction}
use fraud_detection_lite.Service.Environment.{Environment}

-- The zero values of the nullable columns.
abbrev pub null_float : Float8
null_float = record { float64 = lit 0; valid = false }

abbrev pub null_int : Int4
null_int = record { int32 = pos 0; valid = false }

abbrev pub null_timestamp : Timestamp
null_timestamp = record { time = zero_time; valid = false }

-- repository.GetUserProfileByUserIDRow{UserID: userID}
abbrev pub empty_row : ℤ → GetUserProfileByUserIdRow
empty_row user_id = record {
  user_id = user_id;
  average_transaction_amount = null_float;
  std_dev_transaction_amount = null_int;
  max_transaction_amount_seen = null_float;
  average_number_of_transactions_per_day = null_int;
  registered_payment_modes = [];
  usual_transaction_start_hour = null_timestamp;
  usual_transaction_end_hour = null_timestamp;
  total_transactions = pos 0;
  allowed_transactions = pos 0;
  updated_at = null_timestamp;
}

-- Every error of the profile query, not only a missing row, leads to the empty profile.
abbrev pub row_or_empty : ℤ → Result GetUserProfileByUserIdRow → GetUserProfileByUserIdRow
row_or_empty user_id (ok row) = row
row_or_empty user_id (err e) = empty_row user_id

-- The loop that appends each mode; a Mode is a string.
unfoldable pub append_modes : List Mode → List String → List Mode
append_modes modes [] = modes
append_modes modes (m ∷ ms) = append_modes (modes ++ m ∷ []) ms

-- The conversion of a row to the profile that the helpers take.
unfoldable pub domain_profile : GetUserProfileByUserIdRow → UserProfileBehavior
domain_profile row = record {
  user_id = row.user_id;
  average_transaction_amount = row.average_transaction_amount;
  max_transaction_amount_seen = row.max_transaction_amount_seen;
  average_number_of_transactions_per_day = row.average_number_of_transactions_per_day;
  registered_payment_modes = append_modes [] row.registered_payment_modes;
  usual_transaction_start_hour = row.usual_transaction_start_hour;
  usual_transaction_end_hour = row.usual_transaction_end_hour;
  total_transactions = row.total_transactions;
  allowed_transactions = row.allowed_transactions;
  updated_at = row.updated_at;
  std_dev_transaction_amount = row.std_dev_transaction_amount;
}

abbrev pub count_or_zero : Result ℤ → ℤ
count_or_zero (ok n) = n
count_or_zero (err e) = pos 0

-- The row that either service inserts for an analysed transaction.
unfoldable pub create_transaction_params :
    (Float64 → ℤ) → ℤ → Float64 → Mode → FraudAnalysisResult → Time → CreateTransactionParams
create_transaction_params platform user_id amount mode result created_at = record {
  user_id = user_id;
  amount = amount;
  mode = mode;
  risk_score = result.final_risk_score;
  column5 = result.triggered_factors;
  decision = result.decision;
  amount_deviation_score = to_int32 platform result.amount_risk;
  frequency_deviation_score = to_int32 platform result.frequency_risk;
  mode_deviation_score = to_int32 platform result.mode_risk;
  time_deviation_score = to_int32 platform result.time_risk;
  created_at = record { time = created_at; valid = true };
}

abbrev pub transaction_response : CreateTransactionRow → CreateTransactionResponse
transaction_response txn = record {
  transaction_id = txn.id;
  decision = txn.decision;
  risk_score = txn.risk_score;
  triggered_factors = txn.triggered_factors;
  created_at = txn.created_at.time;
}

-- CreateTransaction up to its INSERT, which it ends with: what the row will hold.
unfoldable pub prepare_transaction :
    {S : Type 0}
    → Environment S
    → Queries S
    → ℤ
    → CreateTransactionRequest
    → S
    → CreateTransactionParams × S
prepare_transaction env queries user_id req s =
    let (found, s1) = queries.get_user_profile_by_user_id user_id s in
    let profile = domain_profile (row_or_empty user_id found) in
    let (counted, s2) =
      queries.count_recent_transactions (record { user_id = user_id; secs = lit 3600 }) s1 in
    let (analysed_at, s3) = env.now s2 in
    let result = analyze_transaction env.platform req profile (count_or_zero counted) analysed_at in
    let (created_at, s4) = env.now s3 in
    (create_transaction_params env.platform user_id req.amount req.mode result created_at, s4)

abbrev pub transaction_answer : Result CreateTransactionRow → Result CreateTransactionResponse
transaction_answer (ok txn) = ok (transaction_response txn)
transaction_answer (err e) = err e

-- The INSERT, and the answer.
unfoldable pub insert_transaction :
    {S : Type 0} → Queries S → CreateTransactionParams → S → Result CreateTransactionResponse × S
insert_transaction queries params s =
    let (created, s') = queries.create_transaction params s in (transaction_answer created, s')

-- TransactionService.CreateTransaction
unfoldable pub create_transaction :
    {S : Type 0}
    → Environment S
    → Queries S
    → ℤ
    → CreateTransactionRequest
    → S
    → Result CreateTransactionResponse × S
create_transaction env queries user_id req s =
    let (found, s1) = queries.get_user_profile_by_user_id user_id s in
    let profile = domain_profile (row_or_empty user_id found) in
    let (counted, s2) =
      queries.count_recent_transactions (record { user_id = user_id; secs = lit 3600 }) s1 in
    let (analysed_at, s3) = env.now s2 in
    let result = analyze_transaction env.platform req profile (count_or_zero counted) analysed_at in
    let (created_at, s4) = env.now s3 in
    let params =
      create_transaction_params env.platform user_id req.amount req.mode result created_at in
    let (created, s5) = queries.create_transaction params s4 in
    (elim created [ ok txn ↦ ok (transaction_response txn) | err e ↦ err e ], s5)

-- CreateTransaction is its two parts.
pub create_transaction-insert_transaction :
    {S : Type 0} (env : Environment S) (queries : Queries S) (user_id : ℤ)
    (req : CreateTransactionRequest) (s : S)
    → let (params, s') = prepare_transaction env queries user_id req s in
      create_transaction env queries user_id req s ≡ insert_transaction queries params s'
unfolding create_transaction prepare_transaction insert_transaction
create_transaction-insert_transaction env queries user_id req s = refl
