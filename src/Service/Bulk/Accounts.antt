-- ===== src/Service/Bulk/Accounts.antt =====
-- The counters of ProcessBulkTransactions account for every row.
use native.Mathlib.Nat.{zero-add}
use fraud_detection_lite.Prelude.{
  ℕ, suc, ◌+◌, ◌≤◌, ◌≡◌, ◌∙◌, refl, ap, List, [], ◌∷◌, String, length, arith, Bool-cases, inl, inr,
  leb,
}
use fraud_detection_lite.Prelude.Int.{ℤ, pos}
use fraud_detection_lite.Float.Ops.{Float64}
use fraud_detection_lite.Specs.Error.{Result, ok, err}
use fraud_detection_lite.Repository.Queries.{
  Queries, CreateTransactionRow, GetUserProfileByUserIdRow,
}
use fraud_detection_lite.Service.Environment.{Environment}
use fraud_detection_lite.Service.Transaction.{domain_profile, row_or_empty}
use fraud_detection_lite.Service.Bulk.{
  BulkState, batch_size, refresh, refreshed, end_row, insert, count_inserted, process_amount,
  process_record, process_records, process_opened,
}

-- One read is counted once, as a success or a failure, and as processed if it has three columns.
abbrev pub is_wide : Result (List String) → ℕ
is_wide (ok (a ∷ m ∷ c ∷ more)) = 1
is_wide _ = 0

-- The rows with at least three columns.
abbrev pub wide_rows : List (Result (List String)) → ℕ
wide_rows [] = 0
wide_rows (row ∷ rows) = is_wide row + wide_rows rows

-- How the counters move from one state to another.
pub record Moves (st st' : BulkState) (reads wide wins : ℕ) : Type 0 where
  pub accounted : st'.success + st'.failed ≡ st.success + st.failed + reads
  pub widened : st'.processed ≡ st.processed + wide
  pub within : st'.success ≤ st.success + wins

module _ {S : Type 0} (env : Environment S) (queries : Queries S) (user_id : ℤ) where
  refreshed-Moves :
      (recalculated : Result (Unit {0})) (found : Result GetUserProfileByUserIdRow) (st : BulkState)
      (s1 s2 : S)
      → Moves st (refreshed env queries user_id recalculated found st s1 s2).0 0 0 0
  refreshed-Moves (ok done) (ok row) st s1 s2 = omega arith
  refreshed-Moves (ok done) (err e) st s1 s2 = omega arith
  refreshed-Moves (err bad) found st s1 s2 = omega arith

  refresh-Moves : (st : BulkState) (s : S) → Moves st (refresh env queries user_id st s).0 0 0 0
  unfolding refresh
  refresh-Moves st s =
      let (recalculated, s1) = queries.recalculate_user_profile user_id s in
      let (found, s2) = queries.get_user_profile_by_user_id user_id s1 in
      relaxed st _ (refreshed-Moves recalculated found (record st { batch_count = 0 }) s1 s2)
    where
      relaxed : (x y : BulkState) → Moves (record x { batch_count = 0 }) y 0 0 0 → Moves x y 0 0 0
      relaxed x y h = omega arith

  pub end_row-Moves : (st : BulkState) (s : S) → Moves st (end_row env queries user_id st s).0 0 0 0
  unfolding end_row
  end_row-Moves st s = elim (Bool-cases (leb batch_size st.batch_count)) [
    | inl full ↦ rw full (refresh-Moves st s)
    | inr room ↦ rw room (omega arith)
  ]

  -- An insertion moves one counter by one.
  then_counted :
      (a b c : BulkState) (wins : ℕ)
      → Moves a b 1 0 wins
      → wins ≤ 1
      → Moves b c 0 0 0
      → Moves a c 1 0 1
  then_counted a b c wins h l k = omega arith

  count_inserted-Moves :
      (created : Result CreateTransactionRow) (st : BulkState) (s : S)
      → Moves st (count_inserted env queries user_id created st s).0 1 0 1
  unfolding count_inserted
  count_inserted-Moves (ok row) st s =
      let won = record st { success = suc st.success } in
      then_counted st won _ 1 (omega arith) (omega arith) (end_row-Moves won s)
  count_inserted-Moves (err e) st s =
      let lost = record st { failed = suc st.failed } in
      then_counted st lost _ 0 (omega arith) (omega arith) (end_row-Moves lost s)

  process_amount-Moves :
      (amount : Result Float64) (m c : String) (st : BulkState) (s : S)
      → Moves st (process_amount env queries user_id amount m c st s).0 1 0 1
  unfolding process_amount
  process_amount-Moves (ok amount) m c st s =
      let batched = record st { batch_count = suc st.batch_count } in
      let (created, s') = insert env queries user_id amount m c batched s in
      unbatch st _ (count_inserted-Moves created batched s')
    where
      unbatch :
          (x y : BulkState)
          → Moves (record x { batch_count = suc x.batch_count }) y 1 0 1
          → Moves x y 1 0 1
      unbatch x y h = omega arith
  process_amount-Moves (err e) m c st s = omega arith

  widen :
      (x y : BulkState) → Moves (record x { processed = suc x.processed }) y 1 0 1 → Moves x y 1 1 1
  widen x y h = omega arith

  pub process_record-Moves :
      (row : Result (List String)) (st : BulkState) (s : S)
      → Moves st (process_record env queries user_id row st s).0 1 (is_wide row) (is_wide row)
  unfolding process_record
  process_record-Moves (err e) st s = omega arith
  process_record-Moves (ok []) st s = omega arith
  process_record-Moves (ok (a ∷ [])) st s = omega arith
  process_record-Moves (ok (a ∷ m ∷ [])) st s = omega arith
  process_record-Moves (ok (a ∷ m ∷ c ∷ more)) st s =
      widen st _ (
        process_amount-Moves (env.parse_float a) m c (record st { processed = suc st.processed }) s)

  pub process_records-Moves :
      (rows : List (Result (List String))) (st : BulkState) (s : S)
      → Moves st
          (process_records env queries user_id rows st s).0
          (length rows)
          (wide_rows rows)
          (wide_rows rows)
  unfolding process_records
  process_records-Moves [] st s = omega arith
  process_records-Moves (row ∷ rows) st s =
      let (st', s') = process_record env queries user_id row st s in
      then_rows row rows st st' _ (process_record-Moves row st s)
        (process_records-Moves rows st' s')
    where
      then_rows :
          (r : Result (List String)) (rs : List (Result (List String))) (x y z : BulkState)
          → Moves x y 1 (is_wide r) (is_wide r)
          → Moves y z (length rs) (wide_rows rs) (wide_rows rs)
          → Moves x z (length (r ∷ rs)) (wide_rows (r ∷ rs)) (wide_rows (r ∷ rs))
      then_rows r rs x y z h k = omega arith

  -- After an upload that was read, each row is counted once as a success or a failure, exactly the
  -- rows of three columns or more as processed, and no more successes than those.
  pub process_opened-accounts :
      (rows : List (Result (List String))) (s : S)
      → let response = (process_opened env queries user_id rows s).0 in
        (good bad : ℕ) × (response.success ≡ pos good)
        × (response.failed ≡ pos bad)
        × (response.processed ≡ pos (wide_rows rows))
        × (good + bad ≡ length rows)
        × (good ≤ wide_rows rows)
  unfolding process_opened
  process_opened-accounts rows s =
      let (found, s1) = queries.get_user_profile_by_user_id user_id s in
      let start : BulkState = record {
        processed = 0;
        success = 0;
        failed = 0;
        batch_count = 0;
        profile = domain_profile (row_or_empty user_id found);
      } in
      let moves = process_records-Moves rows start s1 in
      let st = (process_records env queries user_id rows start s1).0 in
      (
        st.success,
        st.failed,
        refl,
        refl,
        ap pos (moves.widened ∙ zero-add _),
        omega (arith, moves.accounted),
        omega (arith, moves.within),
      )
