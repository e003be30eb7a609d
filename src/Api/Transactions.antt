-- ===== src/Api/Transactions.antt =====
-- internal/api/handler/user_transaction_handler.go, with decodeCreateTransaction of decoder.go and
-- GetIDFromRequest of internal/pkg/helpers/auth.go.
use fraud_detection_lite.Prelude.{
  String, Bool, true, not, ◌&&◌, Option, none, some, List, map, str_eq, if◌then◌else◌,
}
use fraud_detection_lite.Prelude.Text.{has_suffix}
use fraud_detection_lite.Prelude.Int.{ℤ, pos, ltb_ℤ, leb_ℤ, int32}
use fraud_detection_lite.Constants.{default_transactions_limit, default_transactions_offset}
use fraud_detection_lite.Specs.Error.{
  Error, Result, ok, err, invalid_body, invalid_token, method_not_allowed, missing_file_in_request,
  unexpected_headers_in_file,
}
use fraud_detection_lite.Specs.Txn.{
  CreateTransactionRequest, CreateTransactionResponse, BulkProcessResponse, validate,
}
use fraud_detection_lite.Specs.User.{UserTokenClaims}
use fraud_detection_lite.Repository.Models.{Transaction}
use fraud_detection_lite.Repository.Queries.{TransactionQueries}
use fraud_detection_lite.Service.Environment.{Upload}
use fraud_detection_lite.Service.Bulk.{Outcome, returned, panic}
use fraud_detection_lite.Service.Session.{Security, get_claims_from_request}
use fraud_detection_lite.Api.Http.{
  Request, FormFile, uploaded, missing_file, bad_form, Codec, Writer, created, listed, found,
  processed, success_response, error_response,
}

-- transactionServiceInterface
pub record TransactionServiceInterface (S : Type 0) : Type 0 where
  pub create_transaction : ℤ → CreateTransactionRequest → S → Result CreateTransactionResponse × S
  pub process_bulk_transactions : ℤ → Upload → String → S → Outcome BulkProcessResponse × S

abbrev pub user_id_of : Result UserTokenClaims → Result ℤ
user_id_of (ok claims) = ok claims.user_id
user_id_of (err e) = err e

abbrev pub context_or : Option ℤ → Result ℤ → Result ℤ
context_or (some user_id) claimed = ok user_id
context_or none claimed = claimed

-- GetIDFromRequest
unfoldable pub get_id_from_request : {S : Type 0} → Security S → Request → S → Result ℤ
get_id_from_request security r s =
    context_or r.context_user_id (user_id_of (get_claims_from_request security r.authorization s))

-- A query parameter that replaces its default if it is a number that passes the test.
abbrev pub parsed_or : (ℤ → Bool) → ℤ → Result ℤ → ℤ
parsed_or admits default (ok n) = if admits n then n else default
parsed_or admits default (err e) = default

abbrev pub parameter_or : (String → Result ℤ) → (ℤ → Bool) → ℤ → String → ℤ
parameter_or atoi admits default text =
    let parsed = parsed_or admits default (atoi text) in
    if not (str_eq text "") then parsed else default

-- The limit and the offset of a listing, as int, before the conversion to int32.
unfoldable pub page_limit : Codec → Request → ℤ
page_limit codec r =
    parameter_or codec.atoi (λ n. ltb_ℤ (pos 0) n) default_transactions_limit (r.query "limit")

unfoldable pub page_offset : Codec → Request → ℤ
page_offset codec r =
    parameter_or codec.atoi (λ n. leb_ℤ (pos 0) n) default_transactions_offset (r.query "offset")

-- An element of the listing.
abbrev pub listed_transaction : Transaction → CreateTransactionResponse
listed_transaction txn = record {
  transaction_id = txn.id;
  decision = txn.decision;
  risk_score = txn.risk_score;
  triggered_factors = txn.triggered_factors;
  created_at = txn.created_at.time;
}

-- decodeCreateTransaction
abbrev pub decode_create_transaction : Codec → Request → Result CreateTransactionRequest
decode_create_transaction codec r = codec.decode_transaction r.body

module _ {S : Type 0} (codec : Codec) (security : Security S)
    (service : TransactionServiceInterface S) (db : TransactionQueries S) where
  abbrev pub post_answer : Result CreateTransactionResponse × S → Writer → Writer × S
  post_answer (ok res, s) w = (success_response codec 200 (created res) w, s)
  post_answer (err e, s) w = (error_response codec 500 e w, s)

  abbrev pub post_validated :
      Result (Unit {0}) → ℤ → CreateTransactionRequest → Writer → S → Writer × S
  post_validated (ok u) user_id req w s = post_answer (service.create_transaction user_id req s) w
  post_validated (err e) user_id req w s = (error_response codec 400 e w, s)

  abbrev pub post_decoded : Result CreateTransactionRequest → ℤ → Writer → S → Writer × S
  post_decoded (ok req) user_id w s = post_validated (validate req) user_id req w s
  post_decoded (err e) user_id w s = (error_response codec 400 invalid_body w, s)

  abbrev pub post_identified : Result ℤ → Request → Writer → S → Writer × S
  post_identified (ok user_id) r w s = post_decoded (decode_create_transaction codec r) user_id w s
  post_identified (err e) r w s = (error_response codec 401 e w, s)

  -- PostTransaction
  unfoldable pub handle_post_transaction : Request → Writer → S → Writer × S
  handle_post_transaction r w s =
      let answered = post_identified (get_id_from_request security r s) r w s in
      if not (str_eq r.method "POST")
      then (error_response codec 405 method_not_allowed w, s)
      else answered

  abbrev pub list_answer : Result (List Transaction) × S → Writer → Writer × S
  list_answer (ok txns, s) w =
      (success_response codec 200 (listed (map listed_transaction txns)) w, s)
  list_answer (err e, s) w = (error_response codec 500 e w, s)

  abbrev pub list_identified : Result ℤ → ℤ → ℤ → Writer → S → Writer × S
  list_identified (ok id) limit offset w s =
      list_answer
        (db.get_all_transactions_by_user_id
          (record { user_id = id; limit = int32 limit; offset = int32 offset }) s)
        w
  list_identified (err e) limit offset w s = (error_response codec 401 e w, s)

  -- GetTransactions
  unfoldable pub handle_get_transactions : Request → Writer → S → Writer × S
  handle_get_transactions r w s =
      list_identified (get_id_from_request security r s) (page_limit codec r) (page_offset codec r)
        w s

  abbrev pub get_answer : Result Transaction × S → Writer → Writer × S
  get_answer (ok txn, s) w = (success_response codec 200 (found txn) w, s)
  get_answer (err e, s) w = (error_response codec 500 e w, s)

  abbrev pub get_parsed : Result ℤ → ℤ → Writer → S → Writer × S
  get_parsed (ok txn_id) user_id w s =
      get_answer (db.get_transaction_by_txn_id (record { id = txn_id; user_id = user_id }) s) w
  get_parsed (err e) user_id w s = (error_response codec 400 invalid_body w, s)

  abbrev pub get_identified : Result ℤ → String → Writer → S → Writer × S
  get_identified (ok user_id) text w s = get_parsed (codec.parse_int32 text) user_id w s
  get_identified (err e) text w s = (error_response codec 401 invalid_token w, s)

  -- GetTransaction, with the value of the path's variable.
  unfoldable pub handle_get_transaction : String → Request → Writer → S → Writer × S
  handle_get_transaction text r w s = get_identified (get_id_from_request security r s) text w s

  -- The status of an error of ProcessBulkTransactions.
  abbrev pub upload_error : Error → Writer → Writer
  upload_error unexpected_headers_in_file w = error_response codec 400 unexpected_headers_in_file w
  upload_error e w = error_response codec 500 e w

  abbrev pub upload_answer : Outcome BulkProcessResponse × S → Writer → Writer × S
  upload_answer (returned (ok res), s) w = (success_response codec 200 (processed res) w, s)
  upload_answer (returned (err e), s) w = (upload_error e w, s)
  upload_answer (panic, s) w = (record w { panicked = true }, s)

  abbrev pub upload_file : FormFile → ℤ → Writer → S → Writer × S
  upload_file (uploaded file filename) user_id w s =
      let answered = upload_answer (service.process_bulk_transactions user_id file filename s) w in
      if not (has_suffix filename ".xlsx") && not (has_suffix filename ".csv")
      then (error_response codec 400 invalid_body w, s)
      else answered
  upload_file missing_file user_id w s = (error_response codec 400 missing_file_in_request w, s)
  upload_file bad_form user_id w s = (error_response codec 400 invalid_body w, s)

  abbrev pub upload_identified : Result ℤ → FormFile → Writer → S → Writer × S
  upload_identified (ok user_id) form w s = upload_file form user_id w s
  upload_identified (err e) form w s = (error_response codec 401 e w, s)

  -- ProcessBulkTransactions
  unfoldable pub handle_upload : Request → Writer → S → Writer × S
  handle_upload r w s =
      let answered = upload_identified (get_id_from_request security r s) r.form w s in
      if not (str_eq r.method "POST")
      then (error_response codec 405 method_not_allowed w, s)
      else answered
