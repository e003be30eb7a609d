-- ===== src/System/Uploads.antt =====
-- ProcessBulkTransactions of internal/service/transaction_service.go on the tables: what an upload of
-- amounts without debts inserts.
use mathlib.Core.Path.{subst}
use fraud_detection_lite.Prelude.{
  ℕ, ◌≡◌, refl, ap, sym, List, [], ◌∷◌, ◌++◌, Every, Every-append_one, String,
}
use fraud_detection_lite.Prelude.Int.{ℤ, pos}
use fraud_detection_lite.Float.Order.{◌⊑◌}
use fraud_detection_lite.Constants.{lit}
use fraud_detection_lite.Time.{Time}
use fraud_detection_lite.Specs.Error.{Result}
use fraud_detection_lite.Repository.Models.{Transaction}
use fraud_detection_lite.Repository.Queries.{CreateTransactionParams, CreateTransactionRow}
use fraud_detection_lite.Service.Environment.{Environment}
use fraud_detection_lite.Service.Ledger.{Log, logged, Ledger, Grows}
use fraud_detection_lite.Service.Bulk.{process_opened}
use fraud_detection_lite.Service.Bulk.Inserted.{KeepsSane, IsDebtFreeRow, process_opened-inserts}
use fraud_detection_lite.Store.Tables.{World, Engine}
use fraud_detection_lite.Store.Transactions.{of_user, count_recent_transactions}
use fraud_detection_lite.Store.Profiles.{
  recalculate_user_profile, get_user_profile_by_user_id, find_profile,
}
use fraud_detection_lite.Store.Profiles.Rows.{profile_row-IsRowOf, find_profile-Every}
use fraud_detection_lite.Store.Rewrites.{Every-keep, recalculate_user_profile-ProfilesPut}
use fraud_detection_lite.Store.Inserts.{
  TransactionInsert, inserted, refused, drawn, create_transaction-TransactionInsert,
}
use fraud_detection_lite.Store.Sanity.{HasNoDebt, IsRowOf-HasSaneAmounts}
use fraud_detection_lite.Store.Interfaces.{queries, IsAside}
use fraud_detection_lite.System.{fresh_world, Reach}
use fraud_detection_lite.System.Sane.{IsSaneRow, Reach-IsSane, some_of, nothing_of}

-- The columns of a stored row that its INSERT gave.
abbrev pub inserted_columns : Transaction → CreateTransactionParams
inserted_columns t = record {
  user_id = t.user_id;
  amount = t.amount;
  mode = t.mode;
  risk_score = t.risk_score;
  column5 = t.triggered_factors;
  decision = t.decision;
  amount_deviation_score = t.amount_deviation_score;
  frequency_deviation_score = t.frequency_deviation_score;
  mode_deviation_score = t.mode_deviation_score;
  time_deviation_score = t.time_deviation_score;
  created_at = t.created_at;
}

abbrev pub stored : List Transaction → Log
stored [] = []
stored (t ∷ ts) = inserted_columns t ∷ stored ts

stored-append :
    (ts : List Transaction) (t : Transaction)
    → stored (ts ++ t ∷ []) ≡ stored ts ++ inserted_columns t ∷ []
stored-append [] t = refl
stored-append (s ∷ ts) t = ap (λ l. inserted_columns s ∷ l) (stored-append ts t)

-- No stored amount is negative or NaN, and every profile is sane.
abbrev IsGood : World → Type 0
IsGood w = Every HasNoDebt w.transactions × Every IsSaneRow w.profiles

insert-stored :
    (p : CreateTransactionParams) (w : World) (made : Result CreateTransactionRow) (w' : World)
    → TransactionInsert p w made w'
    → stored w'.transactions ≡ logged made p (stored w.transactions)
insert-stored p w made w' (inserted i) = stored-append w.transactions _
insert-stored p w made w' (refused e) = refl
insert-stored p w made w' (drawn e) = refl

insert-IsGood :
    (p : CreateTransactionParams) (w : World) (made : Result CreateTransactionRow) (w' : World)
    → lit 0 ⊑ p.amount
    → TransactionInsert p w made w'
    → IsGood w
    → IsGood w'
insert-IsGood p w made w' h (inserted i) (debts, sane) =
    (Every-append_one HasNoDebt w.transactions _ debts h, sane)
insert-IsGood p w made w' h (refused e) g = g
insert-IsGood p w made w' h (drawn e) g = g

aside-IsGood : (w w' : World) → IsAside w w' → IsGood w → IsGood w'
aside-IsGood w w' (keys, now, e) g = subst IsGood (sym e) g

module _ (env : Environment World) (engine : Engine)
    (aside : (v : World) → IsAside v (env.now v).1) where
  now-stored : (w : World) → stored (env.now w).1.transactions ≡ stored w.transactions
  now-stored w = let (keys, now, e) = aside w in ap (λ v. stored v.transactions) e

  recalculate-stored :
      (u : ℤ) (w : World)
      → stored (recalculate_user_profile engine u w).1.transactions ≡ stored w.transactions
  recalculate-stored u w =
      let (ps, put, any) =
        recalculate_user_profile-ProfilesPut engine (λ row. Unit {0}) u w (λ row known made. tt)
          (nothing_of w.profiles) in
      ap (λ v. stored v.transactions) put

  recalculate-IsGood :
      (u : ℤ) (w : World) → IsGood w → IsGood (recalculate_user_profile engine u w).1
  recalculate-IsGood u w (debts, sane) =
      let (ps, put, h) =
        recalculate_user_profile-ProfilesPut engine IsSaneRow u w
          (λ row known made.
            IsRowOf-HasSaneAmounts engine u (of_user u w.transactions) row
              (profile_row-IsRowOf engine u _ w.clock row made).0
              (Every-keep HasNoDebt _ w.transactions debts))
          sane in
      subst IsGood (sym put) (debts, h)

  stored_ledger : Ledger env (queries engine)
  unfolding get_user_profile_by_user_id count_recent_transactions
  stored_ledger = record {
    log = λ w. stored w.transactions;
    now_keeps = now-stored;
    profile_keeps = λ u w. refl;
    count_keeps = λ c w. refl;
    recalculate_keeps = recalculate-stored;
    create_logs = λ p w. insert-stored p w _ _ (create_transaction-TransactionInsert p w);
  }

  stored-KeepsSane : KeepsSane env (queries engine) IsGood
  unfolding get_user_profile_by_user_id
  stored-KeepsSane = record {
    now = λ w g. aside-IsGood w _ (aside w) g;
    profile = λ u w g. g;
    sane = λ u w row (debts, sane) e.
        find_profile-Every IsSaneRow u w.profiles row sane
          (some_of row (find_profile u w.profiles) e);
    recalculate = recalculate-IsGood;
    create = λ p w h g. insert-IsGood p w _ _ h (create_transaction-TransactionInsert p w) g;
  }

  -- In tables that were reached by any statements since they were empty, whose amounts are neither
  -- negative nor NaN, and where the clock leaves the tables alone: an upload of rows, none of which has
  -- a negative or NaN amount, adds to the transactions as many rows as it reports successes; each of
  -- them belongs to the user, none is blocked, and those that were there stay as they were.
  pub process_opened-adds :
      (keys : List String) (now : Time) (user_id : ℤ) (rows : List (Result (List String)))
      (w : World)
      → Reach engine (fresh_world keys now) w
      → Every HasNoDebt w.transactions
      → Every (IsDebtFreeRow env) rows
      → let (response, w') = process_opened env (queries engine) user_id rows w in
        (n : ℕ) × (response.success ≡ pos n)
        × Grows user_id (stored w.transactions) (stored w'.transactions) n
  unfolding stored_ledger
  process_opened-adds keys now user_id rows w reached debts free =
      process_opened-inserts env (queries engine) stored_ledger IsGood stored-KeepsSane user_id rows
        w free (debts, Reach-IsSane engine keys now w reached debts)
