-- ===== src/System/Cold.antt =====
-- A server to which no file is uploaded: the counts of the profiles stay at 0, and nobody is blocked.
use mathlib.Core.Path.{subst}
use fraud_detection_lite.Prelude.{
  ◌≡◌, ◌≢◌, ◌∙◌, refl, sym, arith, List, String, Every, Every-append_one, Every-mono, Option, some,
  none,
}
use fraud_detection_lite.Prelude.Int.{ℤ, pos}
use fraud_detection_lite.Float.Ops.{Float64}
use fraud_detection_lite.Time.{Time}
use fraud_detection_lite.Specs.Error.{Result}
use fraud_detection_lite.Specs.Txn.{CreateTransactionRequest}
use fraud_detection_lite.Repository.Models.{Transaction, block}
use fraud_detection_lite.Repository.Queries.{
  CreateTransactionParams, CreateTransactionRow, GetUserProfileByUserIdRow, CreateUserParams,
}
use fraud_detection_lite.Repository.Models.{User}
use fraud_detection_lite.Risk.Score.{determine_transaction_decision, analyze_transaction}
use fraud_detection_lite.Service.Environment.{Environment}
use fraud_detection_lite.Service.Transaction.{
  row_or_empty, domain_profile, create_transaction_params, create_transaction,
}
use fraud_detection_lite.Service.Session.{Security}
use fraud_detection_lite.Service.Session.Keeps.{
  KeepsSession, signup-keeps, login-keeps, logout-keeps,
}
use fraud_detection_lite.Api.Http.{Request, Codec}
use fraud_detection_lite.Api.Router.{Route}
use fraud_detection_lite.Api.Keeps.{KeepsUsers, KeepsLookups, KeepsPosts}
use fraud_detection_lite.Api.Keeps.Routes.{IsNoUpload, serve_quiet-keeps}
use fraud_detection_lite.Store.Tables.{World, Engine}
use fraud_detection_lite.Store.Transactions.{
  new_transaction, count_recent_transactions, get_all_transactions_by_user_id,
  get_transaction_by_txn_id, or_no_rows,
}
use fraud_detection_lite.Store.Users.{get_user_by_email}
use fraud_detection_lite.Store.Profiles.{
  get_user_profile_by_user_id, find_profile, update_all_profiles, total_of,
}
use fraud_detection_lite.Store.Profiles.Rows.{rebuilt_row-IsRowOf, find_profile-Every}
use fraud_detection_lite.Store.Inserts.{
  TransactionInsert, inserted, refused, drawn, create_transaction-TransactionInsert, UserInsert,
  create_user-UserInsert,
}
use fraud_detection_lite.Store.Rewrites.{update_all_profiles-ProfilesPut}
use fraud_detection_lite.Store.Interfaces.{
  user_queries, transaction_queries, user_service, transaction_service, IsAside, LeavesTables,
}
use fraud_detection_lite.System.{serve_world, fresh_world}

-- A request that uploads no file, the job at midnight, or time that passes.
pub data QuietStep (env : Environment World) (security : Security World) (codec : Codec)
    (engine : Engine) (w : World) : World → Type 0 where
  request :
      (to : Route) (r : Request)
      → IsNoUpload to
      → QuietStep env security codec engine w (serve_world env security codec engine to r w).1
  midnight : QuietStep env security codec engine w (update_all_profiles engine w).1
  pass : (now : Time) → QuietStep env security codec engine w (record w { clock = now })

pub data QuietRun (env : Environment World) (security : Security World) (codec : Codec)
    (engine : Engine) (w : World) : World → Type 0 where
  start : QuietRun env security codec engine w w
  then_quiet :
      {v u : World}
      → QuietRun env security codec engine w v
      → QuietStep env security codec engine v u
      → QuietRun env security codec engine w u

abbrev pub HasNoCount : GetUserProfileByUserIdRow → Type 0
HasNoCount p = p.total_transactions ≡ pos 0

abbrev pub IsUnblockedRow : Transaction → Type 0
IsUnblockedRow t = t.decision ≢ block

abbrev pub IsCold : World → Type 0
IsCold w = Every HasNoCount w.profiles × Every IsUnblockedRow w.transactions

-- A profile without transactions is not blocked on.
decision_cold :
    (final : Float64) (row : GetUserProfileByUserIdRow)
    → HasNoCount row
    → determine_transaction_decision final (domain_profile row) ≢ block
unfolding determine_transaction_decision domain_profile
decision_cold final row h = rw h (ground arith)

analysis_cold :
    (platform : Float64 → ℤ) (req : CreateTransactionRequest) (row : GetUserProfileByUserIdRow)
    (count : ℤ) (t : Time)
    → HasNoCount row
    → (analyze_transaction platform req (domain_profile row) count t).decision ≢ block
unfolding analyze_transaction
analysis_cold platform req row count t h = decision_cold _ row h

found_cold :
    (u : ℤ) (found : Option GetUserProfileByUserIdRow)
    → ((p : GetUserProfileByUserIdRow) → found ≡ some p → HasNoCount p)
    → HasNoCount (row_or_empty u (or_no_rows found))
found_cold u (some p) f = f p refl
found_cold u none f = refl

insert-IsCold :
    (p : CreateTransactionParams) (w : World) (made : Result CreateTransactionRow) (w' : World)
    → p.decision ≢ block
    → TransactionInsert p w made w'
    → IsCold w
    → IsCold w'
insert-IsCold p w made w' free (inserted i) (counts, h) =
    (counts, Every-append_one IsUnblockedRow w.transactions (new_transaction p w) h free)
insert-IsCold p w made w' free (refused e) h = h
insert-IsCold p w made w' free (drawn e) h = h

register-IsCold :
    (p : CreateUserParams) (w : World) (made : Result User) (w' : World)
    → UserInsert p w made w'
    → IsCold w
    → IsCold w'
register-IsCold p w made w' (UserInsert.inserted e) h = h
register-IsCold p w made w' (UserInsert.refused e) h = h
register-IsCold p w made w' (UserInsert.drawn e) h = h

aside-IsCold : (w w' : World) → IsAside w w' → IsCold w → IsCold w'
aside-IsCold w w' (keys, now, e) h = subst IsCold (sym e) h

rebuild-IsCold : (engine : Engine) (w : World) → IsCold w → IsCold (update_all_profiles engine w).1
rebuild-IsCold engine w (counts, h) =
    let (ps, e, k) =
      update_all_profiles-ProfilesPut engine HasNoCount (λ u. Unit) w
        (λ u old row f any made.
          let (of, total, allowed) = rebuilt_row-IsRowOf engine u _ w.clock row old made in
          total ∙ old_total old f)
        (Every-mono IsUnblockedRow (λ t. Unit) w.transactions (λ t free. tt) h) counts in
    subst IsCold (sym e) (k, h)
  where
    old_total :
        (old : Option GetUserProfileByUserIdRow)
        → ((p : GetUserProfileByUserIdRow) → old ≡ some p → HasNoCount p)
        → total_of engine old ≡ pos 0
    old_total (some p) f = f p refl
    old_total none f = refl

module _ (env : Environment World) (security : Security World) (codec : Codec) (engine : Engine)
    (leaves : LeavesTables env security) where
  post-IsCold : KeepsPosts IsCold (transaction_service env engine)
  unfolding create_transaction create_transaction_params get_user_profile_by_user_id
      count_recent_transactions
  post-IsCold u req w h =
      let found = find_profile u w.profiles in
      let now1 = env.now w in
      let now2 = env.now now1.1 in
      let h2 =
        aside-IsCold now1.1 now2.1 (leaves.env_now now1.1)
          (aside-IsCold w now1.1 (leaves.env_now w) h) in
      insert-IsCold _ now2.1 _ _
        (analysis_cold env.platform req (row_or_empty u (or_no_rows found)) _ now1.0
          (found_cold u found (λ p e. find_profile-Every HasNoCount u w.profiles p h.0 e)))
        (create_transaction-TransactionInsert _ now2.1) h2

  session-IsCold : KeepsSession IsCold security user_queries
  unfolding get_user_by_email
  session-IsCold = record {
    now = λ w h. aside-IsCold w _ (leaves.now w) h;
    new_uuid = λ w h. aside-IsCold w _ (leaves.new_uuid w) h;
    hash = λ p w h. aside-IsCold w _ (leaves.generate_from_password p w) h;
    set_key = λ k n w h. aside-IsCold w _ (leaves.set_key k n w) h;
    create_user = λ p w h. register-IsCold p w _ _ (create_user-UserInsert p w) h;
    by_email = λ email w h. h;
  }

  users-IsCold : KeepsUsers IsCold (user_service security)
  users-IsCold = record {
    signup = λ req w h. signup-keeps IsCold security user_queries session-IsCold req w h;
    login = λ req w h. login-keeps IsCold security user_queries session-IsCold req w h;
    logout = λ claims w h. logout-keeps IsCold security user_queries session-IsCold claims w h;
  }

  lookups-IsCold : KeepsLookups IsCold security (transaction_queries engine)
  unfolding get_all_transactions_by_user_id get_transaction_by_txn_id
  lookups-IsCold = record {
    exists_key = λ k w h. aside-IsCold w _ (leaves.exists_key k w) h;
    get_all = λ p w h. h;
    get_one = λ p w h. h;
  }

  step-IsCold : {v u : World} → QuietStep env security codec engine v u → IsCold v → IsCold u
  unfolding serve_world
  step-IsCold {v} (request to r quiet) h =
      serve_quiet-keeps IsCold codec security (user_service security)
        (transaction_service env engine) (transaction_queries engine) users-IsCold post-IsCold
        lookups-IsCold to r v quiet h
  step-IsCold {v} midnight h = rebuild-IsCold engine v h
  step-IsCold (pass now) h = h

  -- Where the clock, bcrypt, uuid and Redis leave the tables alone: after any run of requests without
  -- an upload, and of the job at midnight, from empty tables, no stored transaction has the decision
  -- to block, however many there are and whatever they were.
  pub QuietRun-unblocked :
      (keys : List String) (now : Time) (w : World)
      → QuietRun env security codec engine (fresh_world keys now) w
      → Every IsUnblockedRow w.transactions
  QuietRun-unblocked keys now w run = (go run).1
    where
      go : {u : World} → QuietRun env security codec engine (fresh_world keys now) u → IsCold u
      go start = (tt, tt)
      go (then_quiet r st) = step-IsCold st (go r)
