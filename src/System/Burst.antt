-- ===== src/System/Burst.antt =====
-- Requests of one user that are served at the same time: every one of them is analysed before any of
-- them is inserted.
pub mod Quiet
pub mod Inserted
use fraud_detection_lite.Prelude.{
  ℕ, zero, suc, ◌+◌, ◌≤◌, ◌<◌, ◌≡◌, ◌∙◌, refl, sym, ap, arith, Bool, true, false, Bool-cases, inl,
  inr, not, ◌&&◌, List, [], ◌∷◌, ◌++◌, map, length, Every, String, leb, if◌then◌else◌,
}
use mathlib.Core.Path.{subst}
use mathlib.Core.List.{append-nil, append_assoc}
use fraud_detection_lite.Prelude.Int.{ℤ, pos, negsuc, leb_ℤ}
use fraud_detection_lite.Float.Ops.{Float64, lt, to_int32}
use fraud_detection_lite.Constants.{lit}
use fraud_detection_lite.Time.{Time}
use fraud_detection_lite.Risk.Score.{analyze_transaction}
use fraud_detection_lite.Specs.Error.{Error, Result, ok, err}
use fraud_detection_lite.Specs.Txn.{CreateTransactionRequest, CreateTransactionResponse}
use fraud_detection_lite.Repository.Models.{Transaction, UserProfileBehavior}
use fraud_detection_lite.Repository.Queries.{CreateTransactionParams, CreateTransactionRow}
use fraud_detection_lite.Risk.Factors.{
  contains, calculate_amount_deviation_risk, calculate_time_anomaly_risk,
}
use fraud_detection_lite.Risk.Triggers.{report, analyze_transaction-triggered_factors}
use fraud_detection_lite.Service.Environment.{Environment}
use fraud_detection_lite.Service.Transaction.{
  count_or_zero, create_transaction_params, prepare_transaction, transaction_answer,
  insert_transaction,
}
use fraud_detection_lite.Store.Tables.{World, Engine}
use fraud_detection_lite.Store.Transactions.{
  of_user, is_within, counted, count_within, count_recent_transactions, new_transaction,
  create_transaction,
}
use fraud_detection_lite.Store.Profiles.{get_user_profile_by_user_id}
use fraud_detection_lite.Store.Inserts.{
  TransactionInsert, inserted, refused, drawn, create_transaction-TransactionInsert,
}
use fraud_detection_lite.Store.Interfaces.{queries, IsAside}

module _ (env : Environment World) (engine : Engine) (user_id : ℤ) where
  -- Every request is analysed.
  unfoldable pub prepare_all :
      List CreateTransactionRequest → World → List CreateTransactionParams × World
  prepare_all [] w = ([], w)
  prepare_all (req ∷ reqs) w =
      let (params, w1) = prepare_transaction env (queries engine) user_id req w in
      let (more, w2) = prepare_all reqs w1 in (params ∷ more, w2)

  -- And then every one is inserted.
  unfoldable pub insert_all :
      List CreateTransactionParams → World → List (Result CreateTransactionResponse) × World
  insert_all [] w = ([], w)
  insert_all (params ∷ more) w =
      let (answer, w1) = insert_transaction (queries engine) params w in
      let (answers, w2) = insert_all more w1 in (answer ∷ answers, w2)

  unfoldable pub serve_burst :
      List CreateTransactionRequest → World → List (Result CreateTransactionResponse) × World
  unfolding prepare_all insert_all
  serve_burst reqs w = let (params, w') = prepare_all reqs w in insert_all params w'

-- The number of answers without an error.
abbrev pub successes : List (Result CreateTransactionResponse) → ℕ
successes [] = 0
successes (ok answer ∷ answers) = suc (successes answers)
successes (err e ∷ answers) = successes answers
