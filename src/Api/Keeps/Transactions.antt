-- ===== src/Api/Keeps/Transactions.antt =====
-- What the handlers of transactions do to the state.
use fraud_detection_lite.Prelude.{Bool, true, false, not, ◌&&◌, str_eq, if◌then◌else◌, String, List}
use fraud_detection_lite.Prelude.Text.{has_suffix}
use fraud_detection_lite.Prelude.Int.{ℤ}
use fraud_detection_lite.Specs.Error.{Result, ok, err}
use fraud_detection_lite.Specs.Txn.{
  CreateTransactionRequest, CreateTransactionResponse, BulkProcessResponse, validate,
}
use fraud_detection_lite.Repository.Models.{Transaction}
use fraud_detection_lite.Repository.Queries.{TransactionQueries}
use fraud_detection_lite.Service.Bulk.{Outcome, returned, panic}
use fraud_detection_lite.Service.Session.{Security}
use fraud_detection_lite.Api.Http.{
  Request, Codec, Writer, FormFile, uploaded, missing_file, bad_form,
}
use fraud_detection_lite.Api.Transactions.{
  TransactionServiceInterface, get_id_from_request, page_limit, page_offset, post_answer,
  post_validated, post_decoded, post_identified, handle_post_transaction, list_answer,
  list_identified, handle_get_transactions, get_answer, get_parsed, get_identified,
  handle_get_transaction, upload_answer, upload_file, upload_identified, handle_upload,
}
use fraud_detection_lite.Api.Keeps.{KeepsPosts, KeepsUploads, KeepsLookups}

module _ {ℓ} {S : Type 0} (Inv : S → Type ℓ) (codec : Codec) (security : Security S)
    (service : TransactionServiceInterface S) (db : TransactionQueries S) where
  either_keeps : (b : Bool) (x y : Writer × S) → Inv x.1 → Inv y.1 → Inv (if b then x else y).1
  either_keeps true x y h k = h
  either_keeps false x y h k = k

  module _ (keeps : KeepsPosts Inv service) where
    post_answer-keeps :
        (made : Result CreateTransactionResponse × S) (w : Writer)
        → Inv made.1
        → Inv (post_answer codec security service db made w).1
    post_answer-keeps (ok res, s) w h = h
    post_answer-keeps (err e, s) w h = h

    post_validated-keeps :
        (valid : Result (Unit {0})) (u : ℤ) (req : CreateTransactionRequest) (w : Writer) (s : S)
        → Inv s
        → Inv (post_validated codec security service db valid u req w s).1
    post_validated-keeps (ok v) u req w s h =
        post_answer-keeps (service.create_transaction u req s) w (keeps u req s h)
    post_validated-keeps (err e) u req w s h = h

    post_decoded-keeps :
        (decoded : Result CreateTransactionRequest) (u : ℤ) (w : Writer) (s : S)
        → Inv s
        → Inv (post_decoded codec security service db decoded u w s).1
    post_decoded-keeps (ok req) u w s h = post_validated-keeps (validate req) u req w s h
    post_decoded-keeps (err e) u w s h = h

    post_identified-keeps :
        (id : Result ℤ) (r : Request) (w : Writer) (s : S)
        → Inv s
        → Inv (post_identified codec security service db id r w s).1
    post_identified-keeps (ok u) r w s h =
        post_decoded-keeps (codec.decode_transaction r.body) u w s h
    post_identified-keeps (err e) r w s h = h

    pub handle_post_transaction-keeps :
        (r : Request) (w : Writer) (s : S)
        → Inv s
        → Inv (handle_post_transaction codec security service db r w s).1
    unfolding handle_post_transaction
    handle_post_transaction-keeps r w s h =
        either_keeps (not (str_eq r.method "POST")) _ _ h
          (post_identified-keeps (get_id_from_request security r s) r w s h)

  module _ (keeps : KeepsUploads Inv service) where
    upload_answer-keeps :
        (made : Outcome BulkProcessResponse × S) (w : Writer)
        → Inv made.1
        → Inv (upload_answer codec security service db made w).1
    upload_answer-keeps (returned (ok res), s) w h = h
    upload_answer-keeps (returned (err e), s) w h = h
    upload_answer-keeps (panic, s) w h = h

    upload_file-keeps :
        (form : FormFile) (u : ℤ) (w : Writer) (s : S)
        → Inv s
        → Inv (upload_file codec security service db form u w s).1
    upload_file-keeps (uploaded file name) u w s h =
        either_keeps (not (has_suffix name ".xlsx") && not (has_suffix name ".csv")) _ _ h (
          upload_answer-keeps (service.process_bulk_transactions u file name s) w
            (keeps u file name s h))
    upload_file-keeps missing_file u w s h = h
    upload_file-keeps bad_form u w s h = h

    upload_identified-keeps :
        (id : Result ℤ) (form : FormFile) (w : Writer) (s : S)
        → Inv s
        → Inv (upload_identified codec security service db id form w s).1
    upload_identified-keeps (ok u) form w s h = upload_file-keeps form u w s h
    upload_identified-keeps (err e) form w s h = h

    pub handle_upload-keeps :
        (r : Request) (w : Writer) (s : S)
        → Inv s
        → Inv (handle_upload codec security service db r w s).1
    unfolding handle_upload
    handle_upload-keeps r w s h =
        either_keeps (not (str_eq r.method "POST")) _ _ h
          (upload_identified-keeps (get_id_from_request security r s) r.form w s h)

  module _ (keeps : KeepsLookups Inv security db) where
    list_answer-keeps :
        (made : Result (List Transaction) × S) (w : Writer)
        → Inv made.1
        → Inv (list_answer codec security service db made w).1
    list_answer-keeps (ok txns, s) w h = h
    list_answer-keeps (err e, s) w h = h

    list_identified-keeps :
        (id : Result ℤ) (limit offset : ℤ) (w : Writer) (s : S)
        → Inv s
        → Inv (list_identified codec security service db id limit offset w s).1
    list_identified-keeps (ok u) limit offset w s h =
        list_answer-keeps (db.get_all_transactions_by_user_id _ s) w (keeps.get_all _ s h)
    list_identified-keeps (err e) limit offset w s h = h

    pub handle_get_transactions-keeps :
        (r : Request) (w : Writer) (s : S)
        → Inv s
        → Inv (handle_get_transactions codec security service db r w s).1
    unfolding handle_get_transactions
    handle_get_transactions-keeps r w s h =
        list_identified-keeps (get_id_from_request security r s) (page_limit codec r)
          (page_offset codec r) w s h

    get_answer-keeps :
        (made : Result Transaction × S) (w : Writer)
        → Inv made.1
        → Inv (get_answer codec security service db made w).1
    get_answer-keeps (ok txn, s) w h = h
    get_answer-keeps (err e, s) w h = h

    get_parsed-keeps :
        (parsed : Result ℤ) (u : ℤ) (w : Writer) (s : S)
        → Inv s
        → Inv (get_parsed codec security service db parsed u w s).1
    get_parsed-keeps (ok id) u w s h =
        get_answer-keeps (db.get_transaction_by_txn_id _ s) w (keeps.get_one _ s h)
    get_parsed-keeps (err e) u w s h = h

    get_identified-keeps :
        (id : Result ℤ) (text : String) (w : Writer) (s : S)
        → Inv s
        → Inv (get_identified codec security service db id text w s).1
    get_identified-keeps (ok u) text w s h = get_parsed-keeps (codec.parse_int32 text) u w s h
    get_identified-keeps (err e) text w s h = h

    pub handle_get_transaction-keeps :
        (text : String) (r : Request) (w : Writer) (s : S)
        → Inv s
        → Inv (handle_get_transaction codec security service db text r w s).1
    unfolding handle_get_transaction
    handle_get_transaction-keeps text r w s h =
        get_identified-keeps (get_id_from_request security r s) text w s h
