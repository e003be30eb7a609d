-- ===== src/System/Fetched.antt =====
-- A transaction that was posted is found by a later GET.
use mathlib.Core.Path.{subst}
use fraud_detection_lite.Prelude.{◌≡◌, ◌∙◌, sym, ap, some, none, String}
use fraud_detection_lite.Prelude.Int.{ℤ}
use fraud_detection_lite.Specs.Error.{ok}
use fraud_detection_lite.Specs.User.{UserTokenClaims}
use fraud_detection_lite.Specs.Txn.{CreateTransactionRequest, CreateTransactionResponse}
use fraud_detection_lite.Repository.Models.{Transaction}
use fraud_detection_lite.Repository.Queries.{CreateTransactionParams, CreateTransactionRow}
use fraud_detection_lite.Service.Environment.{Environment}
use fraud_detection_lite.Service.Transaction.{prepare_transaction, transaction_response}
use fraud_detection_lite.Service.Session.{Security}
use fraud_detection_lite.Api.Http.{Request, found, data_chunk, Codec, Writer, fresh}
use fraud_detection_lite.Api.Transactions.{get_answer}
use fraud_detection_lite.Api.Router.{protected, get_transaction}
use fraud_detection_lite.Store.Tables.{World, Engine}
use fraud_detection_lite.Store.Transactions.{
  new_transaction, returned_row, count_recent_transactions, get_transaction_by_txn_id,
}
use fraud_detection_lite.Store.Transactions
use fraud_detection_lite.Store.Profiles.{get_user_profile_by_user_id}
use fraud_detection_lite.Store.Lookup.{create_transaction-found}
use fraud_detection_lite.Store.Invariant.{IsConsistent}
use fraud_detection_lite.Store.Interfaces.{
  queries, transaction_service, transaction_queries, IsAside,
}
use fraud_detection_lite.System.{serve_world}
use fraud_detection_lite.System.Accepted.{
  IsAccepted, answered, success_response-fresh, get-accepted,
}

-- The transaction that a GET shows, of the user, the request and the answer.
pub record IsShown (codec : Codec) (user_id : ℤ) (req : CreateTransactionRequest)
    (res : CreateTransactionResponse) (shown : Writer) : Type 0 where
  pub transaction : Transaction
  pub sent : shown.sent ≡ some 200
  pub body : shown.body ≡ answered codec (data_chunk (found transaction))
  pub owner : transaction.user_id ≡ user_id
  pub amount : transaction.amount ≡ req.amount
  pub mode : transaction.mode ≡ req.mode
  pub decision : transaction.decision ≡ res.decision
  pub risk_score : transaction.risk_score ≡ res.risk_score
  pub factors : transaction.triggered_factors ≡ res.triggered_factors

IsConsistent-aside : (w w' : World) → IsAside w w' → IsConsistent w → IsConsistent w'
IsConsistent-aside w w' (keys, now, e) h = subst IsConsistent (sym e) h

module _ (env : Environment World) (security : Security World) (codec : Codec)
    (engine : Engine) where
  module _ (header : String) (claims : UserTokenClaims)
      (aside : (v : World) → IsAside v (env.now v).1) where
    pub found-IsShown :
        (g : Request) (text : String) (req : CreateTransactionRequest) (p : CreateTransactionParams)
        (v : World) (row : CreateTransactionRow)
        → IsAccepted security header claims (Transactions.create_transaction p v).1
        → g.authorization ≡ header
        → g.context_user_id ≡ none
        → codec.parse_int32 text ≡ ok row.id
        → p.user_id ≡ claims.user_id
        → p.amount ≡ req.amount
        → p.mode ≡ req.mode
        → IsConsistent v
        → (Transactions.create_transaction p v).0 ≡ ok row
        → IsShown codec claims.user_id req
            (transaction_response row)
            (serve_world env security codec engine
              (protected (get_transaction text))
              g
              (Transactions.create_transaction p v).1).0
    found-IsShown g text req p v row accepted h n e owner amount mode cons made =
        let w' = (Transactions.create_transaction p v).1 in
        let (t, returned, stored, lookup) = create_transaction-found p v row cons made in
        let shown : serve_world env security codec engine (protected (get_transaction text)) g w'
            ≡ get_answer codec security (transaction_service env engine)
                (transaction_queries engine) (ok t, w') fresh =
          get-accepted env security codec engine header claims g w' text row.id accepted h n e
          ∙ ap
              (λ u.
                get_answer codec security (transaction_service env engine)
                  (transaction_queries engine)
                  (get_transaction_by_txn_id (record { id = row.id; user_id = u }) w') fresh)
              (sym owner)
          ∙ ap
              (λ answer.
                get_answer codec security (transaction_service env engine)
                  (transaction_queries engine) answer fresh)
              lookup in
        let (written, body) = success_response-fresh codec 200 (found t) in
        record {
          transaction = t;
          sent = ap (λ (a : Writer × World). a.0.sent) shown ∙ written;
          body = ap (λ (a : Writer × World). a.0.body) shown ∙ body;
          owner = ap (λ (x : Transaction). x.user_id) stored ∙ owner;
          amount = ap (λ (x : Transaction). x.amount) stored ∙ amount;
          mode = ap (λ (x : Transaction). x.mode) stored ∙ mode;
          decision = sym (ap (λ (x : CreateTransactionRow). x.decision) returned);
          risk_score = sym (ap (λ (x : CreateTransactionRow). x.risk_score) returned);
          factors = sym (ap (λ (x : CreateTransactionRow). x.triggered_factors) returned);
        }

    pub prepare-IsConsistent :
        (user_id : ℤ) (req : CreateTransactionRequest) (w : World)
        → IsConsistent w
        → IsConsistent (prepare_transaction env (queries engine) user_id req w).1
    unfolding prepare_transaction get_user_profile_by_user_id count_recent_transactions
    prepare-IsConsistent user_id req w h =
        let w1 = (env.now w).1 in
        IsConsistent-aside w1 (env.now w1).1 (aside w1) (IsConsistent-aside w w1 (aside w) h)
