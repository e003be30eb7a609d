-- ===== src/Repository/Queries.antt =====
-- internal/repository/*.sql.go: the rows and parameters of the queries that the services run, and the
-- queries themselves as an interface: what the database does with them is not the program's.
use fraud_detection_lite.Prelude.{List, String}
use fraud_detection_lite.Prelude.Int.{ℤ}
use fraud_detection_lite.Float.Ops.{Float64}
use fraud_detection_lite.Specs.Error.{Result}
use fraud_detection_lite.Repository.Models.{
  Mode, TransactionDecision, Float8, Int4, Timestamp, Transaction, User,
}

pub record GetUserProfileByUserIdRow : Type 0 where
  pub user_id : ℤ
  pub average_transaction_amount : Float8
  pub std_dev_transaction_amount : Int4
  pub max_transaction_amount_seen : Float8
  pub average_number_of_transactions_per_day : Int4
  pub registered_payment_modes : List String
  pub usual_transaction_start_hour : Timestamp
  pub usual_transaction_end_hour : Timestamp
  pub total_transactions : ℤ
  pub allowed_transactions : ℤ
  pub updated_at : Timestamp

pub record CountRecentTransactionsParams : Type 0 where
  pub user_id : ℤ
  pub secs : Float64

pub record CreateTransactionParams : Type 0 where
  pub user_id : ℤ
  pub amount : Float64
  pub mode : Mode
  pub risk_score : ℤ
  pub column5 : List String
  pub decision : TransactionDecision
  pub amount_deviation_score : ℤ
  pub frequency_deviation_score : ℤ
  pub mode_deviation_score : ℤ
  pub time_deviation_score : ℤ
  pub created_at : Timestamp

pub record CreateTransactionRow : Type 0 where
  pub id : ℤ
  pub user_id : ℤ
  pub amount : Float64
  pub mode : Mode
  pub risk_score : ℤ
  pub triggered_factors : List String
  pub decision : TransactionDecision
  pub created_at : Timestamp
  pub updated_at : Timestamp

-- A query reads and changes the state S of the database and of the rest of the world.
pub record Queries (S : Type 0) : Type 0 where
  pub get_user_profile_by_user_id : ℤ → S → Result GetUserProfileByUserIdRow × S
  pub count_recent_transactions : CountRecentTransactionsParams → S → Result ℤ × S
  pub create_transaction : CreateTransactionParams → S → Result CreateTransactionRow × S
  pub recalculate_user_profile : ℤ → S → Result (Unit {0}) × S

pub record CreateUserParams : Type 0 where
  pub name : String
  pub email : String
  pub hashed_pass : String

pub record UserQueries (S : Type 0) : Type 0 where
  pub create_user : CreateUserParams → S → Result User × S
  pub get_user_by_email : String → S → Result User × S

pub record GetAllTransactionsByUserIdParams : Type 0 where
  pub user_id : ℤ
  pub limit : ℤ
  pub offset : ℤ

pub record GetTransactionByTxnIdParams : Type 0 where
  pub id : ℤ
  pub user_id : ℤ

-- repositoryInterface of the handlers.
pub record TransactionQueries (S : Type 0) : Type 0 where
  pub get_all_transactions_by_user_id :
      GetAllTransactionsByUserIdParams → S → Result (List Transaction) × S
  pub get_transaction_by_txn_id : GetTransactionByTxnIdParams → S → Result Transaction × S
