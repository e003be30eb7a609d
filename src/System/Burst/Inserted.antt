-- ===== src/System/Burst/Inserted.antt =====
-- What a burst of requests inserts.
use fraud_detection_lite.Prelude.{
  ℕ, suc, ◌<◌, ◌≡◌, ◌∙◌, refl, sym, ap, arith, List, [], ◌∷◌, ◌++◌, length, Every,
}
use mathlib.Core.Path.{subst}
use mathlib.Core.List.{append-nil, append_assoc}
use fraud_detection_lite.Prelude.Int.{ℤ}
use fraud_detection_lite.Constants.{lit}
use fraud_detection_lite.Specs.Error.{Result}
use fraud_detection_lite.Specs.Txn.{CreateTransactionRequest, CreateTransactionResponse}
use fraud_detection_lite.Repository.Models.{Transaction}
use fraud_detection_lite.Repository.Queries.{CreateTransactionParams, CreateTransactionRow}
use fraud_detection_lite.Service.Environment.{Environment}
use fraud_detection_lite.Service.Transaction.{
  create_transaction_params, prepare_transaction, transaction_answer, insert_transaction,
}
use fraud_detection_lite.Store.Tables.{World, Engine}
use fraud_detection_lite.Store.Transactions.{
  of_user, count_recent_transactions, new_transaction, create_transaction,
}
use fraud_detection_lite.Store.Profiles.{get_user_profile_by_user_id}
use fraud_detection_lite.Store.Inserts.{
  TransactionInsert, inserted, refused, drawn, create_transaction-TransactionInsert,
}
use fraud_detection_lite.Store.Interfaces.{queries, IsAside}
use fraud_detection_lite.System.Burst.{prepare_all, insert_all, serve_burst, successes}
use fraud_detection_lite.System.Burst.Quiet.{
  HasNoSpike, count_within-le, analyze_transaction-HasNoSpike,
}

-- The tables hold the same transactions.
abbrev SameRows : World → World → Type 0
SameRows w w' = w'.transactions ≡ w.transactions

abbrev IsQuiet : CreateTransactionParams → Type 0
IsQuiet p = HasNoSpike p.column5

abbrev pub IsQuietRow : Transaction → Type 0
IsQuietRow t = HasNoSpike t.triggered_factors

aside-SameRows : (w w' : World) → IsAside w w' → SameRows w w'
aside-SameRows w w' (keys, now, e) = ap (λ v. v.transactions) e

module _ (env : Environment World) (engine : Engine) (user_id : ℤ)
    (aside : (w : World) → IsAside w (env.now w).1) where
  prepare-SameRows :
      (req : CreateTransactionRequest) (w : World)
      → SameRows w (prepare_transaction env (queries engine) user_id req w).1
  unfolding prepare_transaction get_user_profile_by_user_id count_recent_transactions
  prepare-SameRows req w =
      aside-SameRows (env.now w).1 (env.now (env.now w).1).1 (aside (env.now w).1)
      ∙ aside-SameRows w _ (aside w)

  prepare-IsQuiet :
      (req : CreateTransactionRequest) (w : World)
      → length (of_user user_id w.transactions) < 5
      → IsQuiet (prepare_transaction env (queries engine) user_id req w).0
  unfolding prepare_transaction get_user_profile_by_user_id count_recent_transactions
      create_transaction_params
  prepare-IsQuiet req w h =
      let (n, e, l) =
        count_within-le engine (lit 3600) (engine.wall w.clock) (of_user user_id w.transactions) in
      analyze_transaction-HasNoSpike env.platform req _ _ _ n e (omega (arith, h, l))

  prepare_all-IsQuiet :
      (reqs : List CreateTransactionRequest) (w : World)
      → length (of_user user_id w.transactions) < 5
      → let (params, w') = prepare_all env engine user_id reqs w in
        Every IsQuiet params × SameRows w w'
  unfolding prepare_all
  prepare_all-IsQuiet [] w h = (tt, refl)
  prepare_all-IsQuiet (req ∷ reqs) w h =
      let w1 = (prepare_transaction env (queries engine) user_id req w).1 in
      let same = prepare-SameRows req w in
      let (quiet, rest) =
        prepare_all-IsQuiet reqs w1 (subst (λ ts. length (of_user user_id ts) < 5) (sym same) h) in
      ((prepare-IsQuiet req w h, quiet), rest ∙ same)

-- What the inserts of quiet rows add to the tables.
abbrev pub AddsQuiet : World → World → ℕ → Type 0
AddsQuiet w w' n =
    (added : List Transaction) × (w'.transactions ≡ w.transactions ++ added)
    × (length added ≡ n)
    × Every IsQuietRow added

AddsQuiet-none : (w w' : World) → SameRows w w' → AddsQuiet w w' 0
AddsQuiet-none w w' e = ([], e ∙ sym (append-nil w.transactions), refl, tt)

AddsQuiet-then :
    (w w1 w2 : World) (t : Transaction) (n : ℕ)
    → w1.transactions ≡ w.transactions ++ t ∷ []
    → IsQuietRow t
    → AddsQuiet w1 w2 n
    → AddsQuiet w w2 (suc n)
AddsQuiet-then w w1 w2 t n e quiet (added, e2, l, h) = (
  t ∷ added,
  e2 ∙ ap (λ ts. ts ++ added) e ∙ append_assoc w.transactions (t ∷ []) added,
  ap suc l,
  (quiet, h),
)

AddsQuiet-same : (w w1 w2 : World) (n : ℕ) → SameRows w w1 → AddsQuiet w1 w2 n → AddsQuiet w w2 n
AddsQuiet-same w w1 w2 n e (added, e2, l, h) = (added, e2 ∙ ap (λ ts. ts ++ added) e, l, h)

insert-AddsQuiet :
    (p : CreateTransactionParams) (w : World) (made : Result CreateTransactionRow) (w1 w2 : World)
    (answers : List (Result CreateTransactionResponse))
    → IsQuiet p
    → TransactionInsert p w made w1
    → AddsQuiet w1 w2 (successes answers)
    → AddsQuiet w w2 (successes (transaction_answer made ∷ answers))
insert-AddsQuiet p w made w1 w2 answers quiet (inserted i) h =
    AddsQuiet-then w w1 w2 (new_transaction p w) (successes answers) refl quiet h
insert-AddsQuiet p w made w1 w2 answers quiet (refused e) h =
    AddsQuiet-same w w1 w2 (successes answers) refl h
insert-AddsQuiet p w made w1 w2 answers quiet (drawn e) h =
    AddsQuiet-same w w1 w2 (successes answers) refl h

module _ (env : Environment World) (engine : Engine) (user_id : ℤ) where
  insert_all-AddsQuiet :
      (params : List CreateTransactionParams) (w : World)
      → Every IsQuiet params
      → let (answers, w') = insert_all env engine user_id params w in
        AddsQuiet w w' (successes answers)
  unfolding insert_all insert_transaction
  insert_all-AddsQuiet [] w h = AddsQuiet-none w w refl
  insert_all-AddsQuiet (p ∷ params) w (quiet, h) =
      let w1 = (create_transaction p w).1 in
      insert-AddsQuiet p w (create_transaction p w).0 w1 (insert_all env engine user_id params w1).1
        (insert_all env engine user_id params w1).0 quiet (create_transaction-TransactionInsert p w)
        (insert_all-AddsQuiet params w1 h)

  -- Where the clock leaves the tables alone, and a user has fewer than five transactions: of any number
  -- of requests of the user that are all analysed before any of them is inserted, as requests at the
  -- same time may be, every success adds one row, and no row reports FREQUENCY_SPIKE.
  pub serve_burst-unreported :
      (reqs : List CreateTransactionRequest) (w : World)
      → ((v : World) → IsAside v (env.now v).1)
      → length (of_user user_id w.transactions) < 5
      → let (answers, w') = serve_burst env engine user_id reqs w in
        AddsQuiet w w' (successes answers)
  unfolding serve_burst
  serve_burst-unreported reqs w aside h =
      let (quiet, same) = prepare_all-IsQuiet env engine user_id aside reqs w h in
      let (params, w1) = prepare_all env engine user_id reqs w in
      let (answers, w2) = insert_all env engine user_id params w1 in
      AddsQuiet-same w w1 w2 (successes answers) same (insert_all-AddsQuiet params w1 quiet)
