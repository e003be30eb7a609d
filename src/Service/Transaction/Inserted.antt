-- ===== src/Service/Transaction/Inserted.antt =====
-- What CreateTransaction inserts, and what it answers.
use fraud_detection_lite.Prelude.{◌≡◌, ◌≢◌, ◌⊎◌, ◌∙◌, inl, inr, refl, ap, [], ◌∷◌, ◌++◌, arith}
use fraud_detection_lite.Prelude.Int.{ℤ}
use fraud_detection_lite.Float.Ops.{Float64}
use fraud_detection_lite.Constants.{lit}
use fraud_detection_lite.Time.{Time}
use fraud_detection_lite.Specs.Error.{Error, Result, ok, err}
use fraud_detection_lite.Specs.Txn.{CreateTransactionRequest, CreateTransactionResponse}
use fraud_detection_lite.Repository.Models.{block}
use fraud_detection_lite.Repository.Queries.{
  Queries, CreateTransactionParams, CreateTransactionRow, CountRecentTransactionsParams,
  GetUserProfileByUserIdRow,
}
use fraud_detection_lite.Risk.Score.{determine_transaction_decision, analyze_transaction}
use fraud_detection_lite.Service.Environment.{Environment}
use fraud_detection_lite.Service.Ledger.{Log, logged, Ledger}
use fraud_detection_lite.Service.Transaction.{
  empty_row, row_or_empty, domain_profile, create_transaction_params, transaction_response,
  create_transaction,
}

-- Either the row was inserted and the answer tells of it, or nothing was and the answer is an error.
abbrev pub Answers : Result CreateTransactionResponse → Log → CreateTransactionParams → Log → Type 0
Answers answer before p after =
    ((txn : CreateTransactionRow) × (answer ≡ ok (transaction_response txn))
      × (after ≡ before ++ p ∷ []))
    ⊎ ((e : Error) × (answer ≡ err e) × (after ≡ before))

-- A row was inserted at most.
abbrev pub AtMost : Log → CreateTransactionParams → Log → Type 0
AtMost before p after = (after ≡ before) ⊎ (after ≡ before ++ p ∷ [])

-- The empty profile has too few transactions to be blocked on.
decision_new :
    (final : Float64) (user_id : ℤ)
    → determine_transaction_decision final (domain_profile (empty_row user_id)) ≢ block
unfolding determine_transaction_decision domain_profile
decision_new final user_id = ground arith

decision_unread :
    (platform : Float64 → ℤ) (req : CreateTransactionRequest) (user_id count : ℤ) (t : Time)
    {found : Result GetUserProfileByUserIdRow} {e : Error}
    → found ≡ err e
    → (analyze_transaction platform req
        (domain_profile (row_or_empty user_id found))
        count
        t).decision
      ≢ block
unfolding analyze_transaction
decision_unread platform req user_id count t h = rw h (decision_new _ user_id)

answers :
    (created : Result CreateTransactionRow) (p : CreateTransactionParams) (before after : Log)
    → after ≡ logged created p before
    → Answers
        (elim created [ ok txn ↦ ok (transaction_response txn) | err e ↦ err e ])
        before
        p
        after
answers (ok txn) p before after h = inl (txn, refl, h)
answers (err e) p before after h = inr (e, refl, h)

at_most :
    (created : Result CreateTransactionRow) (p : CreateTransactionParams) (before after : Log)
    → after ≡ logged created p before
    → AtMost before p after
at_most (ok txn) p before after h = inr h
at_most (err e) p before after h = inl h

module _ {S : Type 0} (env : Environment S) (queries : Queries S) (ledger : Ledger env queries)
    (user_id : ℤ) (req : CreateTransactionRequest) (s : S) where
  created_from :
      (p : CreateTransactionParams) (s' : S)
      → ledger.log s' ≡ ledger.log s
      → ledger.log (queries.create_transaction p s').1
        ≡ logged (queries.create_transaction p s').0 p (ledger.log s)
  created_from p s' e =
      ledger.create_logs p s' ∙ ap (logged (queries.create_transaction p s').0 p) e

  -- The states before the insertion have the log of the first.
  kept_log :
      let s2 =
        (queries.count_recent_transactions
          (record { user_id = user_id; secs = lit 3600 })
          (queries.get_user_profile_by_user_id user_id s).1).1 in
      ledger.log (env.now (env.now s2).1).1 ≡ ledger.log s
  kept_log =
      let s1 = (queries.get_user_profile_by_user_id user_id s).1 in
      let c : CountRecentTransactionsParams = record { user_id = user_id; secs = lit 3600 } in
      let s2 = (queries.count_recent_transactions c s1).1 in
      ledger.now_keeps (env.now s2).1
      ∙ ledger.now_keeps s2
      ∙ ledger.count_keeps c s1
      ∙ ledger.profile_keeps user_id s

  -- Where the inserted rows form a log, a request either inserts one row, with
  -- the user, the amount and the mode of the request, and is answered with a success, or inserts
  -- nothing and is answered with an error.
  pub create_transaction-Answers :
      let (answer, s') = create_transaction env queries user_id req s in
      (p : CreateTransactionParams) × (p.user_id ≡ user_id)
      × (p.amount ≡ req.amount)
      × (p.mode ≡ req.mode)
      × Answers answer (ledger.log s) p (ledger.log s')
  unfolding create_transaction create_transaction_params
  create_transaction-Answers = (_, refl, refl, refl, answers _ _ _ _ (created_from _ _ kept_log))

  -- Where the inserted rows form a log and the profile of the user cannot be read, for whatever reason,
  -- the row that at most is inserted is the user's, and its decision is not to block.
  pub create_transaction_unread :
      (e : Error)
      → (queries.get_user_profile_by_user_id user_id s).0 ≡ err e
      → let (answer, s') = create_transaction env queries user_id req s in
        (p : CreateTransactionParams) × (p.user_id ≡ user_id)
        × (p.decision ≢ block)
        × AtMost (ledger.log s) p (ledger.log s')
  unfolding create_transaction create_transaction_params
  create_transaction_unread e h = (
    _,
    refl,
    decision_unread env.platform req user_id _ _ h,
    at_most _ _ _ _ (created_from _ _ kept_log),
  )
