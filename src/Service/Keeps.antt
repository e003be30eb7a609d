-- ===== src/Service/Keeps.antt =====
-- A predicate of the state that the queries keep is kept by the services.
use fraud_detection_lite.Prelude.{Bool, true, false, List, [], ◌∷◌, String, leb, suc, if◌then◌else◌}
use fraud_detection_lite.Prelude.Text.{has_suffix}
use fraud_detection_lite.Prelude.Int.{ℤ}
use fraud_detection_lite.Float.Ops.{Float64}
use fraud_detection_lite.Time.{Time}
use fraud_detection_lite.Specs.Error.{Result, ok, err}
use fraud_detection_lite.Specs.Txn.{CreateTransactionRequest}
use fraud_detection_lite.Repository.Queries.{
  Queries, CreateTransactionParams, CreateTransactionRow, CountRecentTransactionsParams,
  GetUserProfileByUserIdRow,
}
use fraud_detection_lite.Service.Environment.{Environment, Upload}
use fraud_detection_lite.Service.Transaction.{create_transaction}
use fraud_detection_lite.Service.Bulk.{
  BulkState, Opened, records, refused, panicked, open_file, batch_size, refreshed, refresh, end_row,
  parsed_or_now, row_time, insert, count_inserted, process_amount, process_record, process_records,
  process_opened, process_file, process_bulk_transactions,
}

pub record KeepsQueries {ℓ} {S : Type 0} (Inv : S → Type ℓ) (env : Environment S)
    (queries : Queries S) : Type ℓ where
  pub now : (s : S) → Inv s → Inv (env.now s).1
  pub get_profile : (u : ℤ) (s : S) → Inv s → Inv (queries.get_user_profile_by_user_id u s).1
  pub count_recent :
      (p : CountRecentTransactionsParams) (s : S)
      → Inv s
      → Inv (queries.count_recent_transactions p s).1
  pub create :
      (p : CreateTransactionParams) (s : S) → Inv s → Inv (queries.create_transaction p s).1
  pub recalculate : (u : ℤ) (s : S) → Inv s → Inv (queries.recalculate_user_profile u s).1

module _ {ℓ} {S : Type 0} (Inv : S → Type ℓ) (env : Environment S) (queries : Queries S)
    (keeps : KeepsQueries Inv env queries) (user_id : ℤ) where
  pub create_transaction-keeps :
      (req : CreateTransactionRequest) (s : S)
      → Inv s
      → Inv (create_transaction env queries user_id req s).1
  unfolding create_transaction
  create_transaction-keeps req s h =
      keeps.create _ _
        (keeps.now _ (keeps.now _ (keeps.count_recent _ _ (keeps.get_profile user_id s h))))

  refreshed-keeps :
      (recalculated : Result (Unit {0})) (found : Result GetUserProfileByUserIdRow) (st : BulkState)
      (s1 s2 : S)
      → Inv s1
      → Inv s2
      → Inv (refreshed env queries user_id recalculated found st s1 s2).1
  refreshed-keeps (ok done) (ok row) st s1 s2 h k = k
  refreshed-keeps (ok done) (err e) st s1 s2 h k = k
  refreshed-keeps (err e) found st s1 s2 h k = h

  refresh-keeps : (st : BulkState) (s : S) → Inv s → Inv (refresh env queries user_id st s).1
  unfolding refresh
  refresh-keeps st s h =
      let h1 = keeps.recalculate user_id s h in
      refreshed-keeps _ _ _ _ _ h1 (keeps.get_profile user_id _ h1)

  either_keeps : (b : Bool) (x y : BulkState × S) → Inv x.1 → Inv y.1 → Inv (if b then x else y).1
  either_keeps true x y h k = h
  either_keeps false x y h k = k

  end_row-keeps : (st : BulkState) (s : S) → Inv s → Inv (end_row env queries user_id st s).1
  unfolding end_row
  end_row-keeps st s h = either_keeps (leb batch_size st.batch_count) _ _ (refresh-keeps st s h) h

  parsed_or_now-keeps :
      (parsed : Result Time) (s : S) → Inv s → Inv (parsed_or_now env queries user_id parsed s).1
  parsed_or_now-keeps (ok t) s h = h
  parsed_or_now-keeps (err e) s h = keeps.now s h

  insert-keeps :
      (amount : Float64) (m c : String) (st : BulkState) (s : S)
      → Inv s
      → Inv (insert env queries user_id amount m c st s).1
  unfolding insert row_time
  insert-keeps amount m c st s h = keeps.create _ _ (parsed_or_now-keeps (env.parse_rfc3339 c) s h)

  count_inserted-keeps :
      (created : Result CreateTransactionRow) (st : BulkState) (s : S)
      → Inv s
      → Inv (count_inserted env queries user_id created st s).1
  unfolding count_inserted
  count_inserted-keeps (ok row) st s h = end_row-keeps _ s h
  count_inserted-keeps (err e) st s h = end_row-keeps _ s h

  process_amount-keeps :
      (amount : Result Float64) (m c : String) (st : BulkState) (s : S)
      → Inv s
      → Inv (process_amount env queries user_id amount m c st s).1
  unfolding process_amount
  process_amount-keeps (ok amount) m c st s h =
      let batched = record st { batch_count = suc st.batch_count } in
      let (created, s') = insert env queries user_id amount m c batched s in
      count_inserted-keeps created batched s' (insert-keeps amount m c batched s h)
  process_amount-keeps (err e) m c st s h = h

  process_record-keeps :
      (row : Result (List String)) (st : BulkState) (s : S)
      → Inv s
      → Inv (process_record env queries user_id row st s).1
  unfolding process_record
  process_record-keeps (err e) st s h = h
  process_record-keeps (ok []) st s h = h
  process_record-keeps (ok (a ∷ [])) st s h = h
  process_record-keeps (ok (a ∷ m ∷ [])) st s h = h
  process_record-keeps (ok (a ∷ m ∷ c ∷ more)) st s h =
      process_amount-keeps (env.parse_float a) m c (record st { processed = suc st.processed }) s h

  process_records-keeps :
      (rows : List (Result (List String))) (st : BulkState) (s : S)
      → Inv s
      → Inv (process_records env queries user_id rows st s).1
  unfolding process_records
  process_records-keeps [] st s h = h
  process_records-keeps (row ∷ rows) st s h =
      let (st', s') = process_record env queries user_id row st s in
      process_records-keeps rows st' s' (process_record-keeps row st s h)

  process_file-keeps :
      (opened : Opened) (s : S) → Inv s → Inv (process_file env queries user_id opened s).1
  unfolding process_file process_opened
  process_file-keeps (records rows) s h =
      keeps.now _ (
        keeps.recalculate user_id _
          (process_records-keeps rows _ _ (keeps.get_profile user_id s h)))
  process_file-keeps (refused e) s h = h
  process_file-keeps panicked s h = h

  pub process_bulk_transactions-keeps :
      (file : Upload) (name : String) (s : S)
      → Inv s
      → Inv (process_bulk_transactions env queries user_id file name s).1
  unfolding process_bulk_transactions
  process_bulk_transactions-keeps file name s h =
      process_file-keeps (open_file env.to_lower (has_suffix (env.to_lower name) ".xlsx") file) s h
