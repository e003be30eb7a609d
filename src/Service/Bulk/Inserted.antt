-- ===== src/Service/Bulk/Inserted.antt =====
-- What ProcessBulkTransactions inserts.
use native.Mathlib.Nat.{zero-add}
use fraud_detection_lite.Prelude.{
  ℕ, suc, ◌+◌, ◌≡◌, ◌∙◌, sym, refl, ap, List, [], ◌∷◌, ◌++◌, String, arith, Bool-cases, inl, inr,
  leb, Every,
}
use fraud_detection_lite.Prelude.Int.{ℤ, pos}
use fraud_detection_lite.Float.Ops.{Float64}
use fraud_detection_lite.Float.Order.{◌⊑◌}
use fraud_detection_lite.Constants.{lit}
use fraud_detection_lite.Time.{Time}
use fraud_detection_lite.Specs.Error.{Result, ok, err, Result-cases}
use fraud_detection_lite.Specs.Txn.{CreateBulkTransactionRequest}
use fraud_detection_lite.Repository.Queries.{
  Queries, CreateTransactionParams, CreateTransactionRow, GetUserProfileByUserIdRow,
}
use fraud_detection_lite.Risk.Amount.{HasSaneAmounts}
use fraud_detection_lite.Risk.Score.{analyze_bulk_transactions}
use fraud_detection_lite.Risk.Limits.{analyze_bulk_transactions-ne-block}
use fraud_detection_lite.Service.Environment.{Environment}
use fraud_detection_lite.Service.Transaction.{
  domain_profile, row_or_empty, create_transaction_params,
}
use fraud_detection_lite.Service.Ledger.{
  Log, logged, Ledger, IsUnblocked, Grows, Grows-none, Grows-one, Grows-trans,
  empty_row-HasSaneAmounts,
}
use fraud_detection_lite.Service.Bulk.{
  BulkState, batch_size, refresh, refreshed, end_row, row_time, parsed_or_now, insert,
  count_inserted, process_amount, process_record, process_records, process_opened, fail_row,
}

-- What keeps the stored profiles sane: a property of the state that every query of an upload keeps, as
-- long as no inserted amount is negative or NaN, and under which the profiles that are read are sane.
pub record KeepsSane {S : Type 0} (env : Environment S) (queries : Queries S) (Good : S → Type 0)
    : Type 0 where
  pub now : (s : S) → Good s → Good (env.now s).1
  pub profile : (u : ℤ) (s : S) → Good s → Good (queries.get_user_profile_by_user_id u s).1
  pub sane :
      (u : ℤ) (s : S) (row : GetUserProfileByUserIdRow)
      → Good s
      → (queries.get_user_profile_by_user_id u s).0 ≡ ok row
      → HasSaneAmounts (domain_profile row)
  pub recalculate : (u : ℤ) (s : S) → Good s → Good (queries.recalculate_user_profile u s).1
  pub create :
      (p : CreateTransactionParams) (s : S)
      → lit 0 ⊑ p.amount
      → Good s
      → Good (queries.create_transaction p s).1

abbrev pub IsDebtFree : Result Float64 → Type 0
IsDebtFree (ok x) = lit 0 ⊑ x
IsDebtFree (err e) = Unit

-- A row that could not be read, is too short or has no number, or whose amount is neither negative nor
-- NaN.
abbrev pub IsDebtFreeRow : {S : Type 0} → Environment S → Result (List String) → Type 0
IsDebtFreeRow env (err e) = Unit
IsDebtFreeRow env (ok []) = Unit
IsDebtFreeRow env (ok (a ∷ [])) = Unit
IsDebtFreeRow env (ok (a ∷ m ∷ [])) = Unit
IsDebtFreeRow env (ok (a ∷ m ∷ c ∷ more)) = IsDebtFree (env.parse_float a)

-- From one state and log to the next, in a good state: the successes are the rows that the log grew by.
record Progress (u : ℤ) (st st' : BulkState) (l l' : Log) (G : Type 0) : Type 0 where
  wins : ℕ
  counted : st'.success ≡ st.success + wins
  grown : Grows u l l' wins
  sane : HasSaneAmounts st'.profile
  good : G

module _ {S : Type 0} (env : Environment S) (queries : Queries S) (ledger : Ledger env queries)
    (Good : S → Type 0) (keeps : KeepsSane env queries Good) (user_id : ℤ) where
  abbrev quiet :
      (st : BulkState)
      → HasSaneAmounts st.profile
      → (st' : BulkState) → st'.success ≡ st.success
      → HasSaneAmounts st'.profile
      → (l l' : Log) → l' ≡ l
      → {G : Type 0} → G
      → Progress user_id st st' l l' G
  quiet st h st' e k l l' d g = record {
    wins = 0;
    counted = omega (arith, e);
    grown = Grows-none user_id l d;
    sane = k;
    good = g;
  }

  then_progress :
      {F G : Type 0} (a b c : BulkState) (l m n : Log)
      → Progress user_id a b l m F
      → Progress user_id b c m n G
      → Progress user_id a c l n G
  then_progress a b c l m n h k = record {
    wins = h.wins + k.wins;
    counted = omega (arith, h.counted, k.counted);
    grown = Grows-trans user_id l h.grown k.grown;
    sane = k.sane;
    good = k.good;
  }

  restart :
      {G : Type 0} (x x' y : BulkState) (l m : Log)
      → x'.success ≡ x.success
      → Progress user_id x' y l m G
      → Progress user_id x y l m G
  restart x x' y l m e h = record {
    wins = h.wins;
    counted = omega (arith, e, h.counted);
    grown = h.grown;
    sane = h.sane;
    good = h.good;
  }

  refreshed-Progress :
      (recalculated : Result (Unit {0})) (found : Result GetUserProfileByUserIdRow) (st : BulkState)
      (s1 s2 : S) (l : Log)
      → HasSaneAmounts st.profile
      → ((row : GetUserProfileByUserIdRow) → found ≡ ok row → HasSaneAmounts (domain_profile row))
      → ledger.log s1 ≡ l
      → ledger.log s2 ≡ l
      → Good s1
      → Good s2
      → let (st', s') = refreshed env queries user_id recalculated found st s1 s2 in
        Progress user_id st st' l (ledger.log s') (Good s')
  refreshed-Progress (ok done) (ok row) st s1 s2 l h k d e f g =
      quiet st h _ refl (k row refl) l _ e g
  refreshed-Progress (ok done) (err bad) st s1 s2 l h k d e f g = quiet st h _ refl h l _ e g
  refreshed-Progress (err bad) found st s1 s2 l h k d e f g = quiet st h _ refl h l _ d f

  refresh-Progress :
      (st : BulkState) (s : S)
      → HasSaneAmounts st.profile
      → Good s
      → let (st', s') = refresh env queries user_id st s in
        Progress user_id st st' (ledger.log s) (ledger.log s') (Good s')
  unfolding refresh
  refresh-Progress st s h g =
      let (recalculated, s1) = queries.recalculate_user_profile user_id s in
      let (found, s2) = queries.get_user_profile_by_user_id user_id s1 in
      let g1 = keeps.recalculate user_id s g in
      restart st (record st { batch_count = 0 }) _ (ledger.log s) _ refl
        (refreshed-Progress recalculated found (record st { batch_count = 0 }) s1 s2 (ledger.log s)
          h (λ row. keeps.sane user_id s1 row g1) (ledger.recalculate_keeps user_id s)
          (ledger.profile_keeps user_id s1 ∙ ledger.recalculate_keeps user_id s) g1
          (keeps.profile user_id s1 g1))

  end_row-Progress :
      (st : BulkState) (s : S)
      → HasSaneAmounts st.profile
      → Good s
      → let (st', s') = end_row env queries user_id st s in
        Progress user_id st st' (ledger.log s) (ledger.log s') (Good s')
  unfolding end_row
  end_row-Progress st s h g = elim (Bool-cases (leb batch_size st.batch_count)) [
    | inl full ↦ rw full (refresh-Progress st s h g)
    | inr room ↦ rw room (quiet st h st refl h (ledger.log s) _ refl g)
  ]

  parsed_or_now-keeps :
      (parsed : Result Time) (s : S)
      → ledger.log (parsed_or_now env queries user_id parsed s).1 ≡ ledger.log s
  parsed_or_now-keeps (ok t) s = refl
  parsed_or_now-keeps (err bad) s = ledger.now_keeps s

  row_time-keeps :
      (text : String) (s : S) → ledger.log (row_time env queries user_id text s).1 ≡ ledger.log s
  unfolding row_time
  row_time-keeps text s = parsed_or_now-keeps (env.parse_rfc3339 text) s

  parsed_or_now-Good :
      (parsed : Result Time) (s : S) → Good s → Good (parsed_or_now env queries user_id parsed s).1
  parsed_or_now-Good (ok t) s g = g
  parsed_or_now-Good (err bad) s g = keeps.now s g

  row_time-Good : (text : String) (s : S) → Good s → Good (row_time env queries user_id text s).1
  unfolding row_time
  row_time-Good text s g = parsed_or_now-Good (env.parse_rfc3339 text) s g

  insert-Good :
      (amount : Float64) (m c : String) (st : BulkState) (s : S)
      → lit 0 ⊑ amount
      → Good s
      → Good (insert env queries user_id amount m c st s).1
  unfolding insert create_transaction_params
  insert-Good amount m c st s h g =
      keeps.create _ (row_time env queries user_id c s).1 h (row_time-Good c s g)

  -- What one insertion does to the log.
  insert-logged :
      (amount : Float64) (m c : String) (st : BulkState) (s : S)
      → HasSaneAmounts st.profile
      → let (created, s') = insert env queries user_id amount m c st s in
        (p : CreateTransactionParams) × (ledger.log s' ≡ logged created p (ledger.log s))
        × IsUnblocked user_id p
  unfolding insert create_transaction_params
  insert-logged amount m c st s h =
      let mode = env.to_upper (env.trim_space m) in
      let (created_at, s1) = row_time env queries user_id c s in
      let req : CreateBulkTransactionRequest = record {
        amount = amount;
        mode = mode;
        created_at = created_at;
      } in
      let result = analyze_bulk_transactions env.platform req st.profile (pos 0) in
      let p = create_transaction_params env.platform user_id amount mode result created_at in
      (
        p,
        ledger.create_logs p s1
            ∙ ap (logged (queries.create_transaction p s1).0 p) (row_time-keeps c s),
        record {
          owner = refl;
          unblocked = (analyze_bulk_transactions-ne-block env.platform req st.profile h).0;
        },
      )

  count_inserted-Progress :
      (created : Result CreateTransactionRow) (p : CreateTransactionParams) (st : BulkState) (s : S)
      (l : Log)
      → HasSaneAmounts st.profile
      → IsUnblocked user_id p
      → ledger.log s ≡ logged created p l
      → Good s
      → let (st', s') = count_inserted env queries user_id created st s in
        Progress user_id st st' l (ledger.log s') (Good s')
  unfolding count_inserted
  count_inserted-Progress (ok row) p st s l h free e g =
      let won = record st { success = suc st.success } in
      then_progress st won _ l (ledger.log s) _
        (record {
          wins = 1;
          counted = omega arith;
          grown = Grows-one user_id l p e free;
          sane = h;
          good = g;
        })
        (end_row-Progress won s h g)
  count_inserted-Progress (err bad) p st s l h free e g =
      let lost = fail_row env queries user_id st in
      then_progress st lost _ l (ledger.log s) _ (quiet st h lost refl h l _ e g)
        (end_row-Progress lost s h g)

  process_amount-Progress :
      (amount : Result Float64) (m c : String) (st : BulkState) (s : S)
      → HasSaneAmounts st.profile
      → IsDebtFree amount
      → Good s
      → let (st', s') = process_amount env queries user_id amount m c st s in
        Progress user_id st st' (ledger.log s) (ledger.log s') (Good s')
  unfolding process_amount
  process_amount-Progress (ok amount) m c st s h d g =
      let batched = record st { batch_count = suc st.batch_count } in
      let (created, s') = insert env queries user_id amount m c batched s in
      let (p, e, free) = insert-logged amount m c batched s h in
      restart st batched _ (ledger.log s) _ refl (
        count_inserted-Progress created p batched s' (ledger.log s) h free e
          (insert-Good amount m c batched s d g))
  process_amount-Progress (err e) m c st s h d g = quiet st h _ refl h _ _ refl g

  process_record-Progress :
      (row : Result (List String)) (st : BulkState) (s : S)
      → HasSaneAmounts st.profile
      → IsDebtFreeRow env row
      → Good s
      → let (st', s') = process_record env queries user_id row st s in
        Progress user_id st st' (ledger.log s) (ledger.log s') (Good s')
  unfolding process_record
  process_record-Progress (err e) st s h d g = quiet st h _ refl h _ _ refl g
  process_record-Progress (ok []) st s h d g = quiet st h _ refl h _ _ refl g
  process_record-Progress (ok (a ∷ [])) st s h d g = quiet st h _ refl h _ _ refl g
  process_record-Progress (ok (a ∷ m ∷ [])) st s h d g = quiet st h _ refl h _ _ refl g
  process_record-Progress (ok (a ∷ m ∷ c ∷ more)) st s h d g =
      let raised = record st { processed = suc st.processed } in
      restart st raised _ (ledger.log s) _ refl
        (process_amount-Progress (env.parse_float a) m c raised s h d g)

  process_records-Progress :
      (rows : List (Result (List String))) (st : BulkState) (s : S)
      → HasSaneAmounts st.profile
      → Every (IsDebtFreeRow env) rows
      → Good s
      → let (st', s') = process_records env queries user_id rows st s in
        Progress user_id st st' (ledger.log s) (ledger.log s') (Good s')
  unfolding process_records
  process_records-Progress [] st s h d g = quiet st h _ refl h _ _ refl g
  process_records-Progress (row ∷ rows) st s h (d, ds) g =
      let (st', s') = process_record env queries user_id row st s in
      let first = process_record-Progress row st s h d g in
      then_progress st st' _ (ledger.log s) (ledger.log s') _ first
        (process_records-Progress rows st' s' first.sane ds first.good)

  initial-sane :
      (s : S)
      → Good s
      → HasSaneAmounts
          (domain_profile (row_or_empty user_id (queries.get_user_profile_by_user_id user_id s).0))
  initial-sane s g = elim (Result-cases (queries.get_user_profile_by_user_id user_id s).0) [
    | inl (row, e) ↦ rw e (keeps.sane user_id s row g e)
    | inr (bad, e) ↦ rw e (empty_row-HasSaneAmounts user_id)
  ]

  -- Where the inserted rows form a log and the state is good: an upload whose amounts are neither
  -- negative nor NaN adds to the log as many rows as it reports successes; each of them belongs to the
  -- user, and none is blocked.
  pub process_opened-inserts :
      (rows : List (Result (List String))) (s : S)
      → Every (IsDebtFreeRow env) rows
      → Good s
      → let (response, s') = process_opened env queries user_id rows s in
        (n : ℕ) × (response.success ≡ pos n) × Grows user_id (ledger.log s) (ledger.log s') n
  unfolding process_opened
  process_opened-inserts rows s d g =
      let (found, s1) = queries.get_user_profile_by_user_id user_id s in
      let start : BulkState = record {
        processed = 0;
        success = 0;
        failed = 0;
        batch_count = 0;
        profile = domain_profile (row_or_empty user_id found);
      } in
      let (st, s2) = process_records env queries user_id rows start s1 in
      let (recalculated, s3) = queries.recalculate_user_profile user_id s2 in
      let ran =
        process_records-Progress rows start s1 (initial-sane s g) d (keeps.profile user_id s g) in
      (
        ran.wins,
        ap pos (ran.counted ∙ zero-add _),
        regrow (sym (ledger.profile_keeps user_id s))
            (ledger.now_keeps s3 ∙ ledger.recalculate_keeps user_id s2) ran.grown,
      )
    where
      regrow :
          {a a' b b' : Log} {n : ℕ} → a' ≡ a → b' ≡ b → Grows user_id a b n → Grows user_id a' b' n
      regrow d e (xs, f, l, g) = (xs, e ∙ f ∙ ap (λ t. t ++ xs) (sym d), l, g)
