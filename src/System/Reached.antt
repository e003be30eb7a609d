-- ===== src/System/Reached.antt =====
-- Every request is a sequence of statements, and every sequence of statements leaves the tables
-- consistent.
use mathlib.Core.Path.{subst}
use fraud_detection_lite.Prelude.{sym, List, String}
use fraud_detection_lite.Time.{Time}
use fraud_detection_lite.Service.Environment.{Environment}
use fraud_detection_lite.Service.Keeps.{
  KeepsQueries, create_transaction-keeps, process_bulk_transactions-keeps,
}
use fraud_detection_lite.Service.Session.{Security}
use fraud_detection_lite.Service.Session.Keeps.{
  KeepsSession, signup-keeps, login-keeps, logout-keeps,
}
use fraud_detection_lite.Api.Http.{Request, Codec}
use fraud_detection_lite.Api.Router.{Route}
use fraud_detection_lite.Api.Keeps.{KeepsUsers, KeepsLookups}
use fraud_detection_lite.Api.Keeps.Routes.{serve-keeps}
use fraud_detection_lite.Store.Tables.{World, Engine}
use fraud_detection_lite.Store.Transactions.{
  count_recent_transactions, get_all_transactions_by_user_id, get_transaction_by_txn_id,
}
use fraud_detection_lite.Store.Users.{get_user_by_email}
use fraud_detection_lite.Store.Profiles.{get_user_profile_by_user_id}
use fraud_detection_lite.Store.Interfaces.{
  queries, user_queries, transaction_queries, user_service, transaction_service, IsAside,
  LeavesTables,
}
use fraud_detection_lite.Store.Invariant.{
  IsConsistent, create_transaction-IsConsistent, create_user-IsConsistent,
}
use fraud_detection_lite.Store.Rewrites.{
  recalculate_user_profile-IsConsistent, update_all_profiles-IsConsistent,
}
use fraud_detection_lite.System.{
  serve_world, fresh_world, Step, insert, register, recalculate, rebuild, aside, Reach, here,
  then_step,
}

module _ (env : Environment World) (security : Security World) (codec : Codec) (engine : Engine)
    (leaves : LeavesTables env security) (start : World) where
  aside-Reach : (w w' : World) → IsAside w w' → Reach engine start w → Reach engine start w'
  aside-Reach w w' (keys, now, e) h =
      subst (Reach engine start) (sym e) (then_step h (aside keys now))

  queries-Reach : KeepsQueries (Reach engine start) env (queries engine)
  unfolding get_user_profile_by_user_id count_recent_transactions
  queries-Reach = record {
    now = λ w h. aside-Reach w _ (leaves.env_now w) h;
    get_profile = λ u w h. h;
    count_recent = λ p w h. h;
    create = λ p w h. then_step h (insert p);
    recalculate = λ u w h. then_step h (recalculate u);
  }

  session-Reach : KeepsSession (Reach engine start) security user_queries
  unfolding get_user_by_email
  session-Reach = record {
    now = λ w h. aside-Reach w _ (leaves.now w) h;
    new_uuid = λ w h. aside-Reach w _ (leaves.new_uuid w) h;
    hash = λ p w h. aside-Reach w _ (leaves.generate_from_password p w) h;
    set_key = λ k n w h. aside-Reach w _ (leaves.set_key k n w) h;
    create_user = λ p w h. then_step h (register p);
    by_email = λ email w h. h;
  }

  users-Reach : KeepsUsers (Reach engine start) (user_service security)
  users-Reach = record {
    signup = λ req w h. signup-keeps _ security user_queries session-Reach req w h;
    login = λ req w h. login-keeps _ security user_queries session-Reach req w h;
    logout = λ claims w h. logout-keeps _ security user_queries session-Reach claims w h;
  }

  lookups-Reach : KeepsLookups (Reach engine start) security (transaction_queries engine)
  unfolding get_all_transactions_by_user_id get_transaction_by_txn_id
  lookups-Reach = record {
    exists_key = λ k w h. aside-Reach w _ (leaves.exists_key k w) h;
    get_all = λ p w h. h;
    get_one = λ p w h. h;
  }

  -- Where the clock, bcrypt, uuid and Redis leave the tables alone, the tables after a request, from
  -- any that were reached, are reached by a sequence of the statements.
  pub serve_world-Reach :
      (to : Route) (r : Request) (w : World)
      → Reach engine start w
      → Reach engine start (serve_world env security codec engine to r w).1
  unfolding serve_world
  serve_world-Reach to r w h =
      serve-keeps (Reach engine start) codec security (user_service security)
        (transaction_service env engine) (transaction_queries engine) users-Reach
        (λ u req s k. create_transaction-keeps _ env (queries engine) queries-Reach u req s k)
        lookups-Reach
        (λ u file name s k.
          process_bulk_transactions-keeps _ env (queries engine) queries-Reach u file name s k)
        to r w h

step-IsConsistent :
    (engine : Engine) {v u : World} → Step engine v u → IsConsistent v → IsConsistent u
step-IsConsistent engine {v} (insert p) h = create_transaction-IsConsistent p v h
step-IsConsistent engine {v} (register p) h = create_user-IsConsistent p v h
step-IsConsistent engine {v} (recalculate u) h = recalculate_user_profile-IsConsistent engine u v h
step-IsConsistent engine {v} rebuild h = update_all_profiles-IsConsistent engine v h
step-IsConsistent engine (aside keys now) h = h

-- Whatever statements ran, in any order, since the tables were empty: every transaction and every
-- profile is of a user that exists, the modes and factors of the transactions are of the enumerations,
-- the identifiers ascend, no two users have the same address, and no profile counts more allowed
-- transactions than transactions.
pub Reach-IsConsistent :
    (engine : Engine) (keys : List String) (now : Time) (w : World)
    → Reach engine (fresh_world keys now) w
    → IsConsistent w
Reach-IsConsistent engine keys now w h = go h
  where
    go : {u : World} → Reach engine (fresh_world keys now) u → IsConsistent u
    go here = (tt, tt, tt, tt)
    go (then_step r st) = step-IsConsistent engine st (go r)
