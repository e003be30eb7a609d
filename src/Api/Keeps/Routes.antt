-- ===== src/Api/Keeps/Routes.antt =====
-- What a request does to the state.
use fraud_detection_lite.Prelude.{String}
use fraud_detection_lite.Prelude.Int.{ℤ}
use fraud_detection_lite.Specs.Error.{Result, ok, err}
use fraud_detection_lite.Specs.User.{UserTokenClaims}
use fraud_detection_lite.Repository.Queries.{TransactionQueries}
use fraud_detection_lite.Service.Session.{
  Security, get_claims_from_request, authenticate, admit_claims, admit_known,
}
use fraud_detection_lite.Api.Http.{Request, Codec, Writer, fresh}
use fraud_detection_lite.Api.Users.{UserServiceInterface}
use fraud_detection_lite.Api.Transactions.{TransactionServiceInterface}
use fraud_detection_lite.Api.Router.{
  Route, Protected, post_signup, post_login, protected, post_transactions, get_transactions,
  get_transaction, post_upload, post_logout, handle_protected, admitted, serve_route, serve,
}
use fraud_detection_lite.Api.Keeps.{KeepsUsers, KeepsPosts, KeepsUploads, KeepsLookups}
use fraud_detection_lite.Api.Keeps.Users.{
  handle_signup-keeps, handle_login-keeps, handle_logout-keeps,
}
use fraud_detection_lite.Api.Keeps.Transactions.{
  handle_post_transaction-keeps, handle_upload-keeps, handle_get_transactions-keeps,
  handle_get_transaction-keeps,
}

-- The routes other than the upload of a file.
abbrev pub IsNoUpload : Route → Type 0
IsNoUpload (protected post_upload) = ⊥
IsNoUpload r = Unit

module _ {ℓ} {S : Type 0} (Inv : S → Type ℓ) (codec : Codec) (security : Security S)
    (users : UserServiceInterface S) (transactions : TransactionServiceInterface S)
    (db : TransactionQueries S) (keeps_users : KeepsUsers Inv users)
    (keeps_posts : KeepsPosts Inv transactions) (keeps_lookups : KeepsLookups Inv security db) where
  admit_known-keeps :
      (claims : UserTokenClaims) (known : Result ℤ × S)
      → Inv known.1
      → Inv (admit_known security claims known).1
  admit_known-keeps claims (ok n, s) h = h
  admit_known-keeps claims (err e, s) h = h

  admit_claims-keeps :
      (claimed : Result UserTokenClaims) (s : S) → Inv s → Inv (admit_claims security claimed s).1
  admit_claims-keeps (ok claims) s h =
      admit_known-keeps claims (security.exists_key _ s) (keeps_lookups.exists_key _ s h)
  admit_claims-keeps (err e) s h = h

  authenticate-keeps : (header : String) (s : S) → Inv s → Inv (authenticate security header s).1
  unfolding authenticate
  authenticate-keeps header s h = admit_claims-keeps (get_claims_from_request security header s) s h

  admitted_quiet-keeps :
      (judged : Result UserTokenClaims × S) (p : Protected) (r : Request) (w : Writer)
      → IsNoUpload (protected p)
      → Inv judged.1
      → Inv (admitted codec security users transactions db judged p r w).1
  unfolding handle_protected
  admitted_quiet-keeps (err e, s) p r w q h = h
  admitted_quiet-keeps (ok claims, s) post_transactions r w q h =
      handle_post_transaction-keeps Inv codec security transactions db keeps_posts r w s h
  admitted_quiet-keeps (ok claims, s) get_transactions r w q h =
      handle_get_transactions-keeps Inv codec security transactions db keeps_lookups r w s h
  admitted_quiet-keeps (ok claims, s) (get_transaction id) r w q h =
      handle_get_transaction-keeps Inv codec security transactions db keeps_lookups id r w s h
  admitted_quiet-keeps (ok claims, s) post_logout r w q h =
      handle_logout-keeps Inv codec security users keeps_users r w s h
  admitted_quiet-keeps (ok claims, s) post_upload r w q h = absurd q

  -- A request other than an upload.
  pub serve_quiet-keeps :
      (to : Route) (r : Request) (s : S)
      → IsNoUpload to
      → Inv s
      → Inv (serve codec security users transactions db to r s).1
  unfolding serve serve_route
  serve_quiet-keeps post_signup r s q h =
      handle_signup-keeps Inv codec security users keeps_users r fresh s h
  serve_quiet-keeps post_login r s q h =
      handle_login-keeps Inv codec security users keeps_users r fresh s h
  serve_quiet-keeps (protected p) r s q h =
      admitted_quiet-keeps (authenticate security r.authorization s) p r fresh q
        (authenticate-keeps r.authorization s h)

  -- Any request, where uploads keep the predicate too.
  module _ (keeps_uploads : KeepsUploads Inv transactions) where
    admitted_upload-keeps :
        (judged : Result UserTokenClaims × S) (r : Request) (w : Writer)
        → Inv judged.1
        → Inv (admitted codec security users transactions db judged post_upload r w).1
    unfolding handle_protected
    admitted_upload-keeps (err e, s) r w h = h
    admitted_upload-keeps (ok claims, s) r w h =
        handle_upload-keeps Inv codec security transactions db keeps_uploads r w s h

    pub serve-keeps :
        (to : Route) (r : Request) (s : S)
        → Inv s
        → Inv (serve codec security users transactions db to r s).1
    unfolding serve serve_route
    serve-keeps post_signup r s h = serve_quiet-keeps post_signup r s tt h
    serve-keeps post_login r s h = serve_quiet-keeps post_login r s tt h
    serve-keeps (protected post_upload) r s h =
        admitted_upload-keeps (authenticate security r.authorization s) r fresh
          (authenticate-keeps r.authorization s h)
    serve-keeps (protected post_transactions) r s h =
        serve_quiet-keeps (protected post_transactions) r s tt h
    serve-keeps (protected get_transactions) r s h =
        serve_quiet-keeps (protected get_transactions) r s tt h
    serve-keeps (protected (get_transaction id)) r s h =
        serve_quiet-keeps (protected (get_transaction id)) r s tt h
    serve-keeps (protected post_logout) r s h = serve_quiet-keeps (protected post_logout) r s tt h
