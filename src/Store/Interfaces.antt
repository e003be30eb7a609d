-- ===== src/Store/Interfaces.antt =====
-- The tables behind the interfaces of the services and the handlers.
use fraud_detection_lite.Prelude.{ℕ, ◌≡◌, List, String}
use fraud_detection_lite.Time.{Time}
use fraud_detection_lite.Repository.Queries.{Queries, UserQueries, TransactionQueries}
use fraud_detection_lite.Service.Environment.{Environment}
use fraud_detection_lite.Service.Transaction.{create_transaction}
use fraud_detection_lite.Service.Bulk.{process_bulk_transactions}
use fraud_detection_lite.Service.Session.{Security, signup, login, logout}
use fraud_detection_lite.Api.Users.{UserServiceInterface}
use fraud_detection_lite.Api.Transactions.{TransactionServiceInterface}
use fraud_detection_lite.Store.Tables.{World, Engine}
use fraud_detection_lite.Store.Transactions
use fraud_detection_lite.Store.Profiles
use fraud_detection_lite.Store.Users

abbrev pub queries : Engine → Queries World
queries engine = record {
  get_user_profile_by_user_id = Profiles.get_user_profile_by_user_id;
  count_recent_transactions = Transactions.count_recent_transactions engine;
  create_transaction = Transactions.create_transaction;
  recalculate_user_profile = Profiles.recalculate_user_profile engine;
}

abbrev pub user_queries : UserQueries World
user_queries = record {
  create_user = Users.create_user;
  get_user_by_email = Users.get_user_by_email;
}

abbrev pub transaction_queries : Engine → TransactionQueries World
transaction_queries engine = record {
  get_all_transactions_by_user_id = Transactions.get_all_transactions_by_user_id engine;
  get_transaction_by_txn_id = Transactions.get_transaction_by_txn_id;
}

-- TransactionService and UserService on the tables.
abbrev pub transaction_service : Environment World → Engine → TransactionServiceInterface World
transaction_service env engine = record {
  create_transaction = create_transaction env (queries engine);
  process_bulk_transactions = process_bulk_transactions env (queries engine);
}

abbrev pub user_service : Security World → UserServiceInterface World
user_service security = record {
  signup = signup security user_queries;
  login = login security user_queries;
  logout = logout security;
}

-- Nothing but Redis and the clock has changed.
abbrev pub IsAside : World → World → Type 0
IsAside w w' = (keys : List String) × (now : Time) × (w' ≡ record w { redis = keys; clock = now })

-- The clock of the services, and bcrypt, uuid and Redis, leave the tables alone.
pub record LeavesTables (env : Environment World) (security : Security World) : Type 0 where
  pub env_now : (w : World) → IsAside w (env.now w).1
  pub now : (w : World) → IsAside w (security.now w).1
  pub new_uuid : (w : World) → IsAside w (security.new_uuid w).1
  pub generate_from_password :
      (p : String) (w : World) → IsAside w (security.generate_from_password p w).1
  pub set_key : (k : String) (n : ℕ) (w : World) → IsAside w (security.set_key k n w).1
  pub exists_key : (k : String) (w : World) → IsAside w (security.exists_key k w).1
