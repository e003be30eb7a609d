-- ===== src/Service/Bulk/Reader.antt =====
-- The loop of ProcessBulkTransactions on the reader of a file: `for { record, err := recordIterator() … }`.
use fraud_detection_lite.Prelude.{
  ℕ, zero, suc, ◌≤◌, ◌<◌, ◌≡◌, refl, arith, List, [], ◌∷◌, String, Option, none, some, Option-cases,
  inl, inr, length,
}
use fraud_detection_lite.Prelude.Int.{ℤ}
use fraud_detection_lite.Specs.Error.{Error, Result, ok, err}
use fraud_detection_lite.Repository.Queries.{Queries}
use fraud_detection_lite.Service.Environment.{Environment}
use fraud_detection_lite.Service.Bulk.{BulkState, fail_row, process_record, process_records}

-- What one call of the record iterator gives.
pub data Read : Type 0 where
  record_read : List String → Read
  read_error : Error → Read
  end_of_file : Read

-- What a read that is not io.EOF gives to the loop, which the excel rows and the CSV reader share.
unfoldable pub read_result : Read → Option (Result (List String))
read_result (record_read row) = some (ok row)
read_result (read_error e) = some (err e)
read_result end_of_file = none

module _ {S R : Type 0} (env : Environment S) (queries : Queries S) (user_id : ℤ)
    (read : R → Read × R) where
  -- The body of the loop after a read, and what continues it; io.EOF ends it.
  abbrev pub after_read :
      Option (Result (List String))
      → BulkState
      → S
      → (BulkState → S → Option (BulkState × S))
      → Option (BulkState × S)
  after_read none st s continue = some (st, s)
  after_read (some row) st s continue =
      let (st', s') = process_record env queries user_id row st s in continue st' s'

  -- The loop; `none` means that it has not ended within that many reads.
  unfoldable pub read_loop : ℕ → R → BulkState → S → Option (BulkState × S)
  read_loop zero r st s = none
  read_loop (suc fuel) r st s =
      let (next, r') = read r in
      after_read (read_result next) st s (λ st' s'. read_loop fuel r' st' s')

module _ {R : Type 0} (read : R → Read × R) where
  -- The reads of a file until its end.
  pub data ReadsTo : R → List (Result (List String)) → Type 0 where
    ended : {r : R} → read_result (read r).0 ≡ none → ReadsTo r []
    then_read :
        {r : R} {row : Result (List String)} {rows : List (Result (List String))}
        → read_result (read r).0 ≡ some row
        → ReadsTo (read r).1 rows
        → ReadsTo r (row ∷ rows)

-- Every read before the end of the file uses up some of what is left of it.
abbrev pub Consumes : {R : Type 0} → (R → Read × R) → (R → ℕ) → Type 0
Consumes {R} read left =
    (r : R) (row : Result (List String))
    → read_result (read r).0 ≡ some row
    → left (read r).1 < left r

module _ {S R : Type 0} (env : Environment S) (queries : Queries S) (user_id : ℤ)
    (read : R → Read × R) where
  -- The reads of a file that is used up end.
  reads-end :
      (left : R → ℕ) (fuel : ℕ) (r : R)
      → Consumes read left
      → left r < fuel
      → (rows : List (Result (List String))) × ReadsTo read r rows × (length rows ≤ left r)
  reads-end left zero r c h = absurd (omega arith)
  reads-end left (suc fuel) r c h = elim (Option-cases (read_result (read r).0)) [
    | inl e ↦ ([], ended e, omega arith)
    | inr (row, e) ↦
        let (rows, reads, l) = reads-end left fuel (read r).1 c (omega (arith, h, c r row e)) in
        (row ∷ rows, then_read e reads, omega (arith, l, c r row e))
  ]

  read_loop-reads :
      (fuel : ℕ) (r : R) (rows : List (Result (List String))) (st : BulkState) (s : S)
      → ReadsTo read r rows
      → length rows < fuel
      → read_loop env queries user_id read fuel r st s
        ≡ some (process_records env queries user_id rows st s)
  unfolding read_loop process_records
  read_loop-reads zero r rows st s h l = absurd (omega arith)
  read_loop-reads (suc fuel) r [] st s (ended e) l = rw e refl
  read_loop-reads (suc fuel) r (row ∷ rows) st s (then_read e h) l =
      let (st', s') = process_record env queries user_id row st s in
      rw e (read_loop-reads fuel (read r).1 rows st' s' h (omega arith))

  -- Where every read before the end uses up some of the file: the loop ends within one read more than
  -- there is left, and its result is that of the rows that were read, in their order.
  pub read_loop-ends :
      (left : R → ℕ) (r : R) (st : BulkState) (s : S)
      → Consumes read left
      → (rows : List (Result (List String))) × ReadsTo read r rows
        × (length rows ≤ left r)
        × (read_loop env queries user_id read (suc (left r)) r st s
            ≡ some (process_records env queries user_id rows st s))
  read_loop-ends left r st s c =
      let (rows, reads, l) = reads-end left (suc (left r)) r c (omega arith) in
      (rows, reads, l, read_loop-reads (suc (left r)) r rows st s reads (omega (arith, l)))

  -- Where a read gives an error and leaves the reader as it was, as after a failure of the disk or of
  -- the connection, the loop never ends, whatever the number of reads.
  pub read_loop-repeats :
      (r : R) (e : Error) (fuel : ℕ) (st : BulkState) (s : S)
      → read r ≡ (read_error e, r)
      → read_loop env queries user_id read fuel r st s ≡ none
  unfolding read_loop read_result process_record
  read_loop-repeats r e zero st s h = refl
  read_loop-repeats r e (suc fuel) st s h =
      rw h (read_loop-repeats r e fuel (fail_row env queries user_id st) s h)
