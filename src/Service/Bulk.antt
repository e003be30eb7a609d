-- ===== src/Service/Bulk.antt =====
-- internal/service/txn_service.go: ProcessBulkTransactions.
pub mod Accounts
pub mod Inserted
pub mod Headers
pub mod Reader
pub mod Refused
use Prim.Native.String.{◌++◌ as str_append}
use fraud_detection_lite.Prelude.{
  ℕ, suc, ◌+◌, List, [], ◌∷◌, String, Bool, true, false, not, Option, none, some, leb, str_eq,
  if◌then◌else◌,
}
use fraud_detection_lite.Prelude.Text.{has_suffix}
use fraud_detection_lite.Prelude.Int.{ℤ, pos}
use fraud_detection_lite.Float.Ops.{Float64}
use fraud_detection_lite.Time.{Time}
use fraud_detection_lite.Specs.Error.{
  Error, Result, ok, err, failure_in_parsing_excel, failure_in_parsing_csv,
  unexpected_headers_in_file,
}
use fraud_detection_lite.Specs.Txn.{CreateBulkTransactionRequest, BulkProcessResponse}
use fraud_detection_lite.Repository.Models.{Mode, UserProfileBehavior}
use fraud_detection_lite.Repository.Queries.{
  Queries, GetUserProfileByUserIdRow, CreateTransactionRow,
}
use fraud_detection_lite.Risk.Score.{analyze_bulk_transactions}
use fraud_detection_lite.Service.Environment.{Environment, Upload}
use fraud_detection_lite.Service.Transaction.{
  row_or_empty, domain_profile, create_transaction_params,
}

-- The test of one header against its name: `none` is the panic of an index out of range.
abbrev pub header_differs : (String → String) → List String → String → Option Bool
header_differs to_lower [] name = none
header_differs to_lower (h ∷ hs) name = some (not (str_eq (to_lower h) name))

abbrev pub rest : List String → List String
rest [] = []
rest (h ∷ hs) = hs

-- `a || b`, where either side may panic.
abbrev pub or_else : Option Bool → Option Bool → Option Bool
or_else none b = none
or_else (some true) b = some true
or_else (some false) b = b

-- Whether one of the first three headers is not the expected one.
unfoldable pub has_unexpected_headers : (String → String) → List String → Option Bool
has_unexpected_headers to_lower headers = or_else (header_differs to_lower headers "amount") (
    or_else (header_differs to_lower (rest headers) "mode")
      (header_differs to_lower (rest (rest headers)) "created_at"))

-- What the opening of a file gives: the reads that follow the header, an error, or a panic.
pub data Opened : Type 0 where
  records : List (Result (List String)) → Opened
  refused : Error → Opened
  panicked : Opened

abbrev pub with_headers : Option Bool → List (Result (List String)) → Opened
with_headers none rows = panicked
with_headers (some true) rows = refused unexpected_headers_in_file
with_headers (some false) rows = records rows

-- `if rows.Next() { _, _ = rows.Columns() }`
abbrev pub skip_one : List (Result (List String)) → List (Result (List String))
skip_one [] = []
skip_one (row ∷ rows) = rows

unfoldable pub open_excel : (String → String) → Upload → Opened
open_excel to_lower file =
    if not file.excel_opens
    then refused failure_in_parsing_excel
    else if not file.excel_rows_open
    then refused failure_in_parsing_excel
    else elim file.excel_headers [
      | ok headers ↦
          with_headers (has_unexpected_headers to_lower headers) (skip_one file.excel_rows)
      | err e ↦ refused failure_in_parsing_excel
    ]

abbrev pub with_csv :
    (String → String) → Result (List String) → List (Result (List String)) → Opened
with_csv to_lower (ok headers) rows = with_headers (has_unexpected_headers to_lower headers) rows
with_csv to_lower (err e) rows = refused failure_in_parsing_csv

unfoldable pub open_csv : (String → String) → Upload → Opened
open_csv to_lower file = with_csv to_lower file.csv_headers file.csv_rows

-- The counters of the loop, below the number of rows, and the profile in memory.
pub record BulkState : Type 0 where
  pub processed : ℕ
  pub success : ℕ
  pub failed : ℕ
  pub batch_count : ℕ
  pub profile : UserProfileBehavior

abbrev pub batch_size : ℕ
batch_size = 50

module _ {S : Type 0} (env : Environment S) (queries : Queries S) (user_id : ℤ) where
  -- What a recalculation and a query of the profile leave, with the states after each.
  abbrev pub refreshed :
      Result (Unit {0}) → Result GetUserProfileByUserIdRow → BulkState → S → S → BulkState × S
  refreshed (ok done) (ok row) st s1 s2 = (record st { profile = domain_profile row }, s2)
  refreshed (ok done) (err e) st s1 s2 = (st, s2)
  refreshed (err e) found st s1 s2 = (st, s1)

  -- The recalculation after a batch; the profile in memory follows if both queries succeed.
  unfoldable pub refresh : BulkState → S → BulkState × S
  refresh st s =
      let (recalculated, s1) = queries.recalculate_user_profile user_id s in
      let (found, s2) = queries.get_user_profile_by_user_id user_id s1 in
      refreshed recalculated found (record st { batch_count = 0 }) s1 s2

  -- `if batchCount >= batchSize { … }`
  unfoldable pub end_row : BulkState → S → BulkState × S
  unfolding refresh
  end_row st s =
      let refreshed = refresh st s in if leb batch_size st.batch_count then refreshed else (st, s)

  abbrev pub parsed_or_now : Result Time → S → Time × S
  parsed_or_now (ok t) s = (t, s)
  parsed_or_now (err e) s = env.now s

  -- time.Parse, or else time.Now.
  unfoldable pub row_time : String → S → Time × S
  row_time text s = parsed_or_now (env.parse_rfc3339 text) s

  -- The insertion of an analysed row.
  unfoldable pub insert :
      Float64 → String → String → BulkState → S → Result CreateTransactionRow × S
  unfolding row_time
  insert amount mode_text created_at_text st s =
      let mode = env.to_upper (env.trim_space mode_text) in
      let (created_at, s1) = row_time created_at_text s in
      let req : CreateBulkTransactionRequest = record {
        amount = amount;
        mode = mode;
        created_at = created_at;
      } in
      let result = analyze_bulk_transactions env.platform req st.profile (pos 0) in
      queries.create_transaction
        (create_transaction_params env.platform user_id amount mode result created_at) s1

  abbrev pub fail_row : BulkState → BulkState
  fail_row st = record st { failed = suc st.failed }

  -- The counting of an insertion, and the end of the row.
  unfoldable pub count_inserted : Result CreateTransactionRow → BulkState → S → BulkState × S
  unfolding end_row
  count_inserted (ok row) st s = end_row (record st { success = suc st.success }) s
  count_inserted (err e) st s = end_row (fail_row st) s

  -- A row of at least three columns, by its amount; `processed` is already raised.
  unfoldable pub process_amount : Result Float64 → String → String → BulkState → S → BulkState × S
  unfolding insert count_inserted
  process_amount (ok amount) mode_text created_at_text st s =
      let batched = record st { batch_count = suc st.batch_count } in
      let (created, s') = insert amount mode_text created_at_text batched s in
      count_inserted created batched s'
  process_amount (err e) mode_text created_at_text st s = (fail_row st, s)

  -- The body of the loop, for one read.
  unfoldable pub process_record : Result (List String) → BulkState → S → BulkState × S
  unfolding process_amount
  process_record (err e) st s = (fail_row st, s)
  process_record (ok []) st s = (fail_row st, s)
  process_record (ok (a ∷ [])) st s = (fail_row st, s)
  process_record (ok (a ∷ m ∷ [])) st s = (fail_row st, s)
  process_record (ok (a ∷ m ∷ c ∷ more)) st s =
      process_amount (env.parse_float a) m c (record st { processed = suc st.processed }) s

  -- The loop, until the end of the file.
  unfoldable pub process_records : List (Result (List String)) → BulkState → S → BulkState × S
  unfolding process_record
  process_records [] st s = (st, s)
  process_records (row ∷ rows) st s =
      let (st', s') = process_record row st s in process_records rows st' s'

  -- From the profile query on.
  unfoldable pub process_opened : List (Result (List String)) → S → BulkProcessResponse × S
  unfolding process_records
  process_opened rows s =
      let (found, s1) = queries.get_user_profile_by_user_id user_id s in
      let start : BulkState = record {
        processed = 0;
        success = 0;
        failed = 0;
        batch_count = 0;
        profile = domain_profile (row_or_empty user_id found);
      } in
      let (st, s2) = process_records rows start s1 in
      let (recalculated, s3) = queries.recalculate_user_profile user_id s2 in
      let (finished_at, s4) = env.now s3 in
      (
        record {
          job_id = str_append "sync-job-" (env.format_time finished_at);
          status = "COMPLETED";
          processed = pos st.processed;
          success = pos st.success;
          failed = pos st.failed;
        },
        s4,
      )

-- A call returns a result, or panics.
pub data Outcome (A : Type 0) : Type 0 where
  returned : Result A → Outcome A
  panic : Outcome A

-- The file by its name: a spreadsheet, or else CSV.
abbrev pub open_file : (String → String) → Bool → Upload → Opened
open_file to_lower true file = open_excel to_lower file
open_file to_lower false file = open_csv to_lower file

unfoldable pub process_file :
    {S : Type 0} → Environment S → Queries S → ℤ → Opened → S → Outcome BulkProcessResponse × S
process_file env queries user_id (records rows) s =
    let (response, s') = process_opened env queries user_id rows s in (returned (ok response), s')
process_file env queries user_id (refused e) s = (returned (err e), s)
process_file env queries user_id panicked s = (panic, s)

-- TransactionService.ProcessBulkTransactions of a file and its name.
unfoldable pub process_bulk_transactions :
    {S : Type 0}
    → Environment S
    → Queries S
    → ℤ
    → Upload
    → String
    → S
    → Outcome BulkProcessResponse × S
unfolding process_file
process_bulk_transactions env queries user_id file filename s =
    let excel = has_suffix (env.to_lower filename) ".xlsx" in
    process_file env queries user_id (open_file env.to_lower excel file) s
