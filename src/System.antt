-- ===== src/System.antt =====
-- The server as a whole: requests on the tables, the statements that they run, and what is reached.
pub mod Reached
pub mod Cold
pub mod Private
pub mod Burst
pub mod Accepted
pub mod Fetched
pub mod Posted
pub mod Generated
pub mod Sane
pub mod Uploads
use fraud_detection_lite.Prelude.{ℕ, ◌≡◌, List, [], String}
use fraud_detection_lite.Prelude.Int.{ℤ}
use fraud_detection_lite.Time.{Time}
use fraud_detection_lite.Repository.Queries.{CreateTransactionParams, CreateUserParams}
use fraud_detection_lite.Service.Environment.{Environment}
use fraud_detection_lite.Service.Session.{Security}
use fraud_detection_lite.Api.Http.{Request, Codec, Writer}
use fraud_detection_lite.Api.Router.{Route, serve}
use fraud_detection_lite.Store.Tables.{World, Engine}
use fraud_detection_lite.Store.Transactions.{create_transaction}
use fraud_detection_lite.Store.Users.{create_user}
use fraud_detection_lite.Store.Profiles.{recalculate_user_profile, update_all_profiles}
use fraud_detection_lite.Store.Interfaces.{user_service, transaction_service, transaction_queries}

-- The router, the handlers and the services on the tables.
unfoldable pub serve_world :
    Environment World → Security World → Codec → Engine → Route → Request → World → Writer × World
serve_world env security codec engine to r w =
    serve codec security (user_service security) (transaction_service env engine)
      (transaction_queries engine) to r w

-- The tables after the migrations, before the first request.
abbrev pub fresh_world : List String → Time → World
fresh_world keys now = record {
  users = [];
  transactions = [];
  profiles = [];
  next_user_id = 1;
  next_transaction_id = 1;
  clock = now;
  redis = keys;
}

-- A statement that writes, of any request or of the job at midnight, or a change of Redis or the clock.
pub data Step (engine : Engine) (w : World) : World → Type 0 where
  insert : (p : CreateTransactionParams) → Step engine w (create_transaction p w).1
  register : (p : CreateUserParams) → Step engine w (create_user p w).1
  recalculate : (u : ℤ) → Step engine w (recalculate_user_profile engine u w).1
  rebuild : Step engine w (update_all_profiles engine w).1
  aside : (keys : List String) (now : Time) → Step engine w (record w { redis = keys; clock = now })

pub data Reach (engine : Engine) (w : World) : World → Type 0 where
  here : Reach engine w w
  then_step : {v u : World} → Reach engine w v → Step engine v u → Reach engine w u
