-- ===== src/Service/Bulk/Refused.antt =====
-- The rows of an upload that the database refuses for their mode.
use mathlib.Core.Path.{subst}
use fraud_detection_lite.Prelude.{
  ℕ, suc, ◌+◌, ◌≤◌, ◌≡◌, refl, sym, List, [], ◌∷◌, String, Bool, false, arith, Bool-cases, inl, inr,
  if◌then◌else◌, length,
}
use fraud_detection_lite.Prelude.Int.{ℤ, pos}
use fraud_detection_lite.Float.Ops.{Float64}
use fraud_detection_lite.Specs.Error.{Error, Result, ok, err}
use fraud_detection_lite.Repository.Queries.{Queries, CreateTransactionParams, CreateTransactionRow}
use fraud_detection_lite.Service.Environment.{Environment}
use fraud_detection_lite.Service.Transaction.{
  domain_profile, row_or_empty, create_transaction_params,
}
use fraud_detection_lite.Service.Bulk.{
  BulkState, insert, count_inserted, process_amount, process_record, process_records,
  process_opened,
}
use fraud_detection_lite.Service.Bulk.Accounts.{
  end_row-Moves, process_record-Moves, process_records-Moves,
}

abbrev pub Fails {ℓ} : {A : Type ℓ} → Result A → Type ℓ
Fails r = (e : Error) × (r ≡ err e)

-- A read with three columns or more and a mode that the test knows, as the service spells it.
abbrev pub is_hopeful : {S : Type 0} → Environment S → (String → Bool) → Result (List String) → ℕ
is_hopeful env known_mode (ok (a ∷ m ∷ c ∷ more)) =
    if known_mode (env.to_upper (env.trim_space m)) then 1 else 0
is_hopeful env known_mode _ = 0

abbrev pub hopeful_rows :
    {S : Type 0} → Environment S → (String → Bool) → List (Result (List String)) → ℕ
hopeful_rows env known_mode [] = 0
hopeful_rows env known_mode (row ∷ rows) =
    is_hopeful env known_mode row + hopeful_rows env known_mode rows

module _ {S : Type 0} (env : Environment S) (queries : Queries S) (user_id : ℤ)
    (known_mode : String → Bool)
    (refuses : (p : CreateTransactionParams) (s : S)
      → known_mode p.mode ≡ false
      → Fails (queries.create_transaction p s).0) where
  count_inserted-lost :
      (created : Result CreateTransactionRow) (st : BulkState) (s : S)
      → Fails created
      → (count_inserted env queries user_id created st s).0.success ≤ st.success
  unfolding count_inserted
  count_inserted-lost created st s (e, failed) =
      let ends = end_row-Moves env queries user_id (record st { failed = suc st.failed }) s in
      subst (λ c. (count_inserted env queries user_id c st s).0.success ≤ st.success) (sym failed)
        (omega (arith, ends.within))

  process_amount-lost :
      (amount : Result Float64) (m c : String) (st : BulkState) (s : S)
      → known_mode (env.to_upper (env.trim_space m)) ≡ false
      → (process_amount env queries user_id amount m c st s).0.success ≤ st.success
  unfolding process_amount insert create_transaction_params
  process_amount-lost (ok amount) m c st s unknown = count_inserted-lost _ _ _ (refuses _ _ unknown)
  process_amount-lost (err e) m c st s unknown = omega arith

  process_record-hopeful :
      (row : Result (List String)) (st : BulkState) (s : S)
      → (process_record env queries user_id row st s).0.success
        ≤ st.success + is_hopeful env known_mode row
  unfolding process_record
  process_record-hopeful (err e) st s = omega arith
  process_record-hopeful (ok []) st s = omega arith
  process_record-hopeful (ok (a ∷ [])) st s = omega arith
  process_record-hopeful (ok (a ∷ m ∷ [])) st s = omega arith
  process_record-hopeful (ok (a ∷ m ∷ c ∷ more)) st s =
      elim (Bool-cases (known_mode (env.to_upper (env.trim_space m)))) [
        | inl known ↦
            let moves = process_record-Moves env queries user_id (ok (a ∷ m ∷ c ∷ more)) st s in
            rw known (omega (arith, moves.within))
        | inr unknown ↦
            let lost =
              process_amount-lost (env.parse_float a) m c
                (record st { processed = suc st.processed }) s unknown in
            rw unknown (omega (arith, lost))
      ]

  process_records-hopeful :
      (rows : List (Result (List String))) (st : BulkState) (s : S)
      → (process_records env queries user_id rows st s).0.success
        ≤ st.success + hopeful_rows env known_mode rows
  unfolding process_records
  process_records-hopeful [] st s = omega arith
  process_records-hopeful (row ∷ rows) st s =
      let (st', s') = process_record env queries user_id row st s in
      omega (arith, process_record-hopeful row st s, process_records-hopeful rows st' s')

  -- Where the database refuses every row of an unknown mode, an upload reports no more successes than
  -- it has rows of three columns with a known one.
  pub process_opened-hopeful :
      (rows : List (Result (List String))) (s : S)
      → let response = (process_opened env queries user_id rows s).0 in
        (good bad : ℕ) × (response.success ≡ pos good)
        × (response.failed ≡ pos bad)
        × (good + bad ≡ length rows)
        × (good ≤ hopeful_rows env known_mode rows)
  unfolding process_opened
  process_opened-hopeful rows s =
      let (found, s1) = queries.get_user_profile_by_user_id user_id s in
      let start : BulkState = record {
        processed = 0;
        success = 0;
        failed = 0;
        batch_count = 0;
        profile = domain_profile (row_or_empty user_id found);
      } in
      let st = (process_records env queries user_id rows start s1).0 in
      let moves = process_records-Moves env queries user_id rows start s1 in
      (
        st.success,
        st.failed,
        refl,
        refl,
        omega (arith, moves.accounted),
        omega (arith, process_records-hopeful rows start s1),
      )
