-- ===== src/System/Accepted.antt =====
-- Requests with a token that is accepted.
use fraud_detection_lite.Prelude.{
  ℕ, ◌≡◌, ◌∙◌, refl, ap, ◌&&◌, List, [], ◌∷◌, some, none, String, if◌then◌else◌, arith,
}
use fraud_detection_lite.Prelude.Int.{ℤ, pos}
use fraud_detection_lite.Specs.Error.{ok}
use fraud_detection_lite.Specs.User.{UserTokenClaims}
use fraud_detection_lite.Specs.Txn.{CreateTransactionRequest, validate}
use fraud_detection_lite.Service.Environment.{Environment}
use fraud_detection_lite.Service.Transaction.{create_transaction}
use fraud_detection_lite.Service.Session.{
  Security, blacklist_key, admit_claims, admit_known, authenticate, get_claims_from_request,
}
use fraud_detection_lite.Api.Http.{
  Request, Payload, Chunk, data_chunk, server_error_chunk, Codec, fresh, success_response,
}
use fraud_detection_lite.Api.Transactions.{
  user_id_of, context_or, get_id_from_request, post_answer, handle_post_transaction, get_answer,
  handle_get_transaction,
}
use fraud_detection_lite.Api.Router.{
  Protected, protected, post_transactions, get_transaction, handle_protected, admitted, serve_route,
  serve,
}
use fraud_detection_lite.Store.Tables.{World, Engine}
use fraud_detection_lite.Store.Transactions.{get_transaction_by_txn_id}
use fraud_detection_lite.Store.Interfaces.{
  queries, user_service, transaction_service, transaction_queries,
}
use fraud_detection_lite.System.{serve_world}

-- In a state, the header's token has the claims, and Redis does not list it and is left alone.
pub record IsAccepted (security : Security World) (header : String) (claims : UserTokenClaims)
    (v : World) : Type 0 where
  pub claimed : get_claims_from_request security header v ≡ ok claims
  pub unlisted : security.exists_key (blacklist_key security claims) v ≡ (ok (pos 0), v)

-- The body that reaches the client: the chunk, else the text of a server error, else nothing.
abbrev pub answered : Codec → Chunk → List Chunk
answered codec c =
    if codec.marshals c && codec.writes c
    then c ∷ []
    else if codec.writes server_error_chunk
    then server_error_chunk ∷ []
    else []

-- A first response has its status, whatever becomes of the body.
pub success_response-fresh :
    (codec : Codec) (status : ℕ) (payload : Payload)
    → let w = success_response codec status payload fresh in
      (w.sent ≡ some status) × (w.body ≡ answered codec (data_chunk payload))
unfolding success_response
success_response-fresh codec status payload = ground (arith)

module _ (env : Environment World) (security : Security World) (codec : Codec) (engine : Engine)
    (header : String) (claims : UserTokenClaims) where
  authenticate-accepted :
      (v : World)
      → IsAccepted security header claims v
      → authenticate security header v ≡ (ok claims, v)
  unfolding authenticate
  authenticate-accepted v accepted =
      ap (λ claimed. admit_claims security claimed v) (accepted.claimed)
      ∙ ap (admit_known security claims) (accepted.unlisted)

  protected-accepted :
      (p : Protected) (r : Request) (v : World)
      → IsAccepted security header claims v
      → r.authorization ≡ header
      → serve_world env security codec engine (protected p) r v
        ≡ handle_protected codec security
            (user_service security)
            (transaction_service env engine)
            (transaction_queries engine)
            p
            r
            fresh
            v
  unfolding serve_world serve serve_route
  protected-accepted p r v accepted h =
      ap
        (λ judged.
          admitted codec security (user_service security) (transaction_service env engine)
            (transaction_queries engine) judged p r fresh)
        (ap (λ text. authenticate security text v) h ∙ authenticate-accepted v accepted)

  get_id-accepted :
      (r : Request) (v : World)
      → IsAccepted security header claims v
      → r.authorization ≡ header
      → r.context_user_id ≡ none
      → get_id_from_request security r v ≡ ok claims.user_id
  unfolding get_id_from_request
  get_id-accepted r v accepted h n =
      ap (λ c. context_or c (user_id_of (get_claims_from_request security r.authorization v))) n
      ∙ ap (λ text. user_id_of (get_claims_from_request security text v)) h
      ∙ ap user_id_of (accepted.claimed)

  -- What a valid POST does.
  pub post-accepted :
      (r : Request) (v : World) (req : CreateTransactionRequest)
      → IsAccepted security header claims v
      → r.authorization ≡ header
      → r.context_user_id ≡ none
      → r.method ≡ "POST"
      → codec.decode_transaction r.body ≡ ok req
      → validate req ≡ ok tt
      → serve_world env security codec engine (protected post_transactions) r v
        ≡ post_answer codec security
            (transaction_service env engine)
            (transaction_queries engine)
            (create_transaction env (queries engine) claims.user_id req v)
            fresh
  unfolding handle_protected handle_post_transaction
  post-accepted r v req accepted h n m d valid =
      protected-accepted post_transactions r v accepted h
      ∙ rw (get_id-accepted r v accepted h n, d, valid, m) refl

  pub get-accepted :
      (g : Request) (v : World) (text : String) (id : ℤ)
      → IsAccepted security header claims v
      → g.authorization ≡ header
      → g.context_user_id ≡ none
      → codec.parse_int32 text ≡ ok id
      → serve_world env security codec engine (protected (get_transaction text)) g v
        ≡ get_answer codec security
            (transaction_service env engine)
            (transaction_queries engine)
            (get_transaction_by_txn_id (record { id = id; user_id = claims.user_id }) v)
            fresh
  unfolding handle_protected handle_get_transaction
  get-accepted g v text id accepted h n e =
      protected-accepted (get_transaction text) g v accepted h
      ∙ rw (get_id-accepted g v accepted h n, e) refl
