-- ===== src/Tests/Services.antt =====
-- The services, in the small world.
use fraud_detection_lite.Prelude.{ℕ, ◌+◌, ◌≤◌, ◌≡◌, ◌≢◌, refl, [], ◌∷◌, length}
use fraud_detection_lite.Prelude.Int.{pos}
use fraud_detection_lite.Prelude.Text.{has_suffix}
use fraud_detection_lite.Repository.Models.{block}
use fraud_detection_lite.Repository.Queries.{CreateTransactionParams}
use fraud_detection_lite.Specs.Error.{other}
use fraud_detection_lite.Service.Transaction.{create_transaction}
use fraud_detection_lite.Service.Transaction.Inserted.{
  Answers, AtMost, create_transaction-Answers, create_transaction_unread,
}
use fraud_detection_lite.Service.Bulk.{panic, process_opened, process_bulk_transactions}
use fraud_detection_lite.Service.Bulk.Accounts.{wide_rows, process_opened-accounts}
use fraud_detection_lite.Service.Bulk.Headers.{process_bulk_transactions_truncated}
use fraud_detection_lite.Tests.Samples.{
  world, known, unread, known_ledger, unread_ledger, rows, truncated_file, request,
}

create_transaction-Answers_example :
    let (answer, s') = create_transaction world known (pos 7) request [] in
    (p : CreateTransactionParams) × (p.user_id ≡ pos 7)
    × (p.amount ≡ request.amount)
    × (p.mode ≡ request.mode)
    × Answers answer [] p s'
create_transaction-Answers_example =
    create_transaction-Answers world known known_ledger (pos 7) request []

create_transaction_unread_example :
    let (answer, s') = create_transaction world unread (pos 8) request [] in
    (p : CreateTransactionParams) × (p.user_id ≡ pos 8) × (p.decision ≢ block) × AtMost [] p s'
create_transaction_unread_example =
    create_transaction_unread world unread unread_ledger (pos 8) request []
      (other "connection refused") refl

process_opened-accounts_example :
    let response = (process_opened world known (pos 7) rows []).0 in
    (good bad : ℕ) × (response.success ≡ pos good)
    × (response.failed ≡ pos bad)
    × (response.processed ≡ pos (wide_rows rows))
    × (good + bad ≡ length rows)
    × (good ≤ wide_rows rows)
process_opened-accounts_example = process_opened-accounts world known (pos 7) rows []

process_bulk_transactions_truncated_example :
    process_bulk_transactions world known (pos 7) truncated_file "april.csv" [] ≡ (panic, [])
unfolding has_suffix
process_bulk_transactions_truncated_example =
    process_bulk_transactions_truncated world known (pos 7) truncated_file "april.csv" []
      ("amount" ∷ "mode" ∷ []) refl refl (refl, refl)
