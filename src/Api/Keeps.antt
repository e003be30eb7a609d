-- ===== src/Api/Keeps.antt =====
-- What the handlers do to the state: only what the services, the queries and the lookup of a revoked
-- token do.
pub mod Users
pub mod Transactions
pub mod Routes
use mathlib.Core.Path.{subst}
use fraud_detection_lite.Prelude.{
  ◌≡◌, refl, sym, ap, Bool, true, false, not, ◌&&◌, Bool-cases, inl, inr, str_eq, if◌then◌else◌,
  String, Option, some, none,
}
use fraud_detection_lite.Prelude.Text.{has_suffix}
use fraud_detection_lite.Prelude.Int.{ℤ}
use fraud_detection_lite.Specs.Error.{Error, Result, ok, err}
use fraud_detection_lite.Specs.Txn.{
  CreateTransactionRequest, CreateTransactionResponse, BulkProcessResponse, validate,
}
use fraud_detection_lite.Specs.User.{
  UserSignupRequest, UserSignupResponse, UserLoginRequest, UserLoginResponse, UserTokenClaims,
  validate_signup, validate_login,
}
use fraud_detection_lite.Repository.Models.{Transaction}
use fraud_detection_lite.Repository.Queries.{
  TransactionQueries, GetAllTransactionsByUserIdParams, GetTransactionByTxnIdParams,
}
use fraud_detection_lite.Service.Environment.{Upload}
use fraud_detection_lite.Service.Bulk.{Outcome, returned, panic}
use fraud_detection_lite.Service.Session.{
  Security, get_claims_from_request, authenticate, admit_claims, admit_known,
}
use fraud_detection_lite.Api.Http.{
  Request, Codec, Writer, FormFile, uploaded, missing_file, bad_form, fresh,
}
use fraud_detection_lite.Api.Users.{
  UserServiceInterface, decode_user_signup_request, decode_user_login_request, complain_unless_post,
  signup_answer, signup_validated, signup_decoded, handle_signup, login_answer, login_validated,
  login_decoded, handle_login, logout_answer, logout_claimed, handle_logout,
}
use fraud_detection_lite.Api.Transactions.{
  TransactionServiceInterface, get_id_from_request, page_limit, page_offset, post_answer,
  post_validated, post_decoded, post_identified, handle_post_transaction, list_answer,
  list_identified, handle_get_transactions, get_answer, get_parsed, get_identified,
  handle_get_transaction, upload_answer, upload_file, upload_identified, handle_upload,
}
use fraud_detection_lite.Api.Router.{
  Route, Protected, post_signup, post_login, protected, post_transactions, get_transactions,
  get_transaction, post_upload, post_logout, handle_protected, admitted, serve_route, serve,
}

-- A predicate of the state that the operations behind the handlers keep.
pub record KeepsUsers {ℓ} {S : Type 0} (Inv : S → Type ℓ) (service : UserServiceInterface S)
    : Type ℓ where
  pub signup : (req : UserSignupRequest) (s : S) → Inv s → Inv (service.signup req s).1
  pub login : (req : UserLoginRequest) (s : S) → Inv s → Inv (service.login req s).1
  pub logout : (claims : UserTokenClaims) (s : S) → Inv s → Inv (service.logout claims s).1

abbrev pub KeepsPosts {ℓ} : {S : Type 0} → (S → Type ℓ) → TransactionServiceInterface S → Type ℓ
KeepsPosts {S} Inv service =
    (u : ℤ) (req : CreateTransactionRequest) (s : S)
    → Inv s
    → Inv (service.create_transaction u req s).1

abbrev pub KeepsUploads {ℓ} : {S : Type 0} → (S → Type ℓ) → TransactionServiceInterface S → Type ℓ
KeepsUploads {S} Inv service =
    (u : ℤ) (file : Upload) (name : String) (s : S)
    → Inv s
    → Inv (service.process_bulk_transactions u file name s).1

pub record KeepsLookups {ℓ} {S : Type 0} (Inv : S → Type ℓ) (security : Security S)
    (db : TransactionQueries S) : Type ℓ where
  pub exists_key : (key : String) (s : S) → Inv s → Inv (security.exists_key key s).1
  pub get_all :
      (p : GetAllTransactionsByUserIdParams) (s : S)
      → Inv s
      → Inv (db.get_all_transactions_by_user_id p s).1
  pub get_one :
      (p : GetTransactionByTxnIdParams) (s : S) → Inv s → Inv (db.get_transaction_by_txn_id p s).1
