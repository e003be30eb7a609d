-- ===== src/Tests/Systems.antt =====
-- The server on small tables.
use fraud_detection_lite.Prelude.{ℕ, length, true, false, ◌∷◌, ◌≡◌, refl, [], Every, some, arith}
use fraud_detection_lite.Prelude.Int.{pos}
use fraud_detection_lite.Float.Ops.{from_ℤ, div, min_float}
use fraud_detection_lite.Prelude.Text.{trim_prefix}
use fraud_detection_lite.Constants.{lit}
use fraud_detection_lite.Specs.Error.{Error, ok, err, invalid_token}
use fraud_detection_lite.Repository.Queries.{CreateTransactionRow, GetUserProfileByUserIdRow}
use fraud_detection_lite.Service.Session.{get_claims_from_request, authenticate}
use fraud_detection_lite.Api.Answers.{HasNoData, serve-refuses}
use fraud_detection_lite.Api.Transactions.{get_id_from_request}
use fraud_detection_lite.Api.Router.{
  post_signup, protected, post_transactions, get_transactions, post_upload, serve,
}
use fraud_detection_lite.Store.Tables.{World, cast_integer, largest}
use fraud_detection_lite.Store.Transactions.{new_transaction, returned_row, create_transaction}
use fraud_detection_lite.Store.Users.{create_user}
use fraud_detection_lite.Store.Profiles.{
  recalculate_user_profile, get_user_profile_by_user_id, update_all_profiles, extreme,
}
use fraud_detection_lite.Store.Interfaces.{user_service, transaction_service, transaction_queries}
use fraud_detection_lite.Store.Invariant.{IsConsistent}
use fraud_detection_lite.Store.Profiles.{find_profile}
use fraud_detection_lite.Store.Profiles.Learned.{approved, IsLearned}
use fraud_detection_lite.Store.Learns.{
  owned_by, of_earlier_days, Relearns, recalculate_user_profile-learns, update_all_profiles-learns,
}
use fraud_detection_lite.Store.Refresh.{recalculate_user_profile-fails}
use fraud_detection_lite.System.{serve_world, Reach, here, then_step, insert, register, recalculate}
use fraud_detection_lite.System.Reached.{serve_world-Reach, Reach-IsConsistent}
use fraud_detection_lite.System.Cold.{
  start, then_quiet, request, midnight, IsUnblockedRow, QuietRun-unblocked,
}
use fraud_detection_lite.System.Private.{IsPrivate, serve_world-IsPrivate}
use fraud_detection_lite.Service.Transaction.{domain_profile}
use fraud_detection_lite.Store.Sanity.{recalculate_user_profile-HasSaneAmounts}
use fraud_detection_lite.Float.Literals.{lit_mono}
use fraud_detection_lite.Risk.Amount.{HasSaneAmounts}
use fraud_detection_lite.Store.Upserts.{UpsertUserProfileFromProfileParams}
use fraud_detection_lite.Float.Order.{◌⊑◌}
use fraud_detection_lite.Float.Literals.{lit_mono}
use fraud_detection_lite.Service.Ledger.{Grows}
use fraud_detection_lite.Service.Bulk.{process_opened}
use fraud_detection_lite.Store.Interfaces.{queries}
use fraud_detection_lite.Store.Sanity.{HasNoDebt}
use fraud_detection_lite.System.Uploads.{stored, process_opened-adds}
use fraud_detection_lite.Tests.Samples.{rows, noon, at_hour}
use fraud_detection_lite.Tests.Worlds.{
  engine, shop, guard, shop-LeavesTables, codec, asks, empty, bea, purchase, joined, bought,
}

abbrev after_post : World
after_post =
    (serve_world shop guard codec engine (protected post_transactions) (asks "POST" "Bearer bea")
      joined).1

-- The tables after a request are reached as well.
after_post_reached : Reach engine empty after_post
after_post_reached =
    serve_world-Reach shop guard codec engine shop-LeavesTables empty (protected post_transactions)
      (asks "POST" "Bearer bea") joined (then_step here (register bea))

abbrev refreshed : World
refreshed = (recalculate_user_profile engine (pos 1) (bought 100)).1

Reach-IsConsistent_example : IsConsistent refreshed
Reach-IsConsistent_example = Reach-IsConsistent engine [] noon refreshed (
    then_step (then_step (then_step here (register bea)) (insert (purchase 100)))
      (recalculate (pos 1)))

abbrev opened : World
opened = (serve_world shop guard codec engine post_signup (asks "POST" "") empty).1

abbrev shopped : World
shopped =
    (serve_world shop guard codec engine (protected post_transactions) (asks "POST" "Bearer bea")
      opened).1

QuietRun-unblocked_example :
    Every IsUnblockedRow (update_all_profiles engine shopped).1.transactions
QuietRun-unblocked_example =
    QuietRun-unblocked shop guard codec engine shop-LeavesTables [] noon
      (update_all_profiles engine shopped).1
      (then_quiet
        (then_quiet (then_quiet start (request post_signup (asks "POST" "") tt))
          (request (protected post_transactions) (asks "POST" "Bearer bea") tt))
        midnight)

recalculate_user_profile-learns_example :
    let bought_one = owned_by (pos 1) (bought 100).transactions in
    (row : GetUserProfileByUserIdRow) × ((get_user_profile_by_user_id (pos 1) refreshed).0 ≡ ok row)
    × IsLearned engine (pos 1) bought_one row
    × (row.total_transactions ≡ pos (length bought_one))
    × (row.allowed_transactions ≡ pos (length (approved bought_one)))
unfolding create_user create_transaction recalculate_user_profile cast_integer largest lit min_float
    div from_ℤ extreme
recalculate_user_profile-learns_example =
    recalculate_user_profile-learns engine (pos 1) (bought 100) refl refl

-- The tables with one transaction, on the day after it.
abbrev next_day : World
next_day = record (bought 100) { clock = record { secs = 90_000; zone = 0 } }

update_all_profiles-learns_example :
    Relearns engine
      (pos 1)
      (of_earlier_days engine (pos 1) next_day.clock next_day.transactions)
      (find_profile (pos 1) next_day.profiles)
      (find_profile (pos 1) (update_all_profiles engine next_day).1.profiles)
unfolding create_user create_transaction update_all_profiles cast_integer largest lit min_float div
    from_ℤ extreme
update_all_profiles-learns_example = update_all_profiles-learns engine (pos 1) next_day refl

learns_from_one : length (of_earlier_days engine (pos 1) next_day.clock next_day.transactions) ≡ 1
unfolding create_user create_transaction
learns_from_one = refl

recalculate_user_profile-fails_example :
    (e : Error) × (recalculate_user_profile engine (pos 1) (bought 3000000000)
      ≡ (err e, bought 3000000000))
unfolding create_user create_transaction lit
recalculate_user_profile-fails_example =
    recalculate_user_profile-fails engine (pos 1) (bought 3000000000) []
      (new_transaction (purchase 3000000000) joined) [] refl refl (omega arith)

abbrev row : CreateTransactionRow
row = returned_row (new_transaction (purchase 100) joined)

serve-refuses_example :
    let (response, after) =
      serve codec guard
        (user_service guard)
        (transaction_service shop engine)
        (transaction_queries engine)
        (protected post_upload)
        (asks "POST" "Bearer mallory")
        joined in
    (response.sent ≡ some 401)
    × Every HasNoData response.body
    × (after ≡ (authenticate guard "Bearer mallory" joined).1)
unfolding authenticate get_claims_from_request trim_prefix
serve-refuses_example =
    serve-refuses codec guard (user_service guard) (transaction_service shop engine)
      (transaction_queries engine) post_upload (asks "POST" "Bearer mallory") joined invalid_token
      refl

serve_world-IsPrivate_example :
    Every
      (IsPrivate (bought 100).transactions (pos 1))
      (serve_world shop guard codec engine
        (protected get_transactions)
        (asks "GET" "Bearer bea")
        (bought 100)).0.body
unfolding authenticate get_claims_from_request get_id_from_request trim_prefix
serve_world-IsPrivate_example =
    serve_world-IsPrivate shop guard codec engine get_transactions (asks "GET" "Bearer bea")
      (bought 100) (pos 1) tt (λ P ts h. h) refl

abbrev given : UpsertUserProfileFromProfileParams
given = record {
  user_id = pos 1;
  average_transaction_amount = record { float64 = lit 250; valid = true };
  std_dev_transaction_amount = record { int32 = pos 9; valid = false };
  max_transaction_amount_seen = record { float64 = lit 900; valid = true };
  average_number_of_transactions_per_day = record { int32 = pos 3; valid = true };
  registered_payment_modes = "UPI" ∷ "CARD" ∷ [];
  usual_transaction_start_hour = at_hour 9;
  usual_transaction_end_hour = at_hour 18;
  total_transactions = pos 12;
  allowed_transactions = pos 11;
}

recalculate_user_profile-HasSaneAmounts_example :
    (row : GetUserProfileByUserIdRow) × ((get_user_profile_by_user_id (pos 1) refreshed).0 ≡ ok row)
    × HasSaneAmounts (domain_profile row)
unfolding create_user create_transaction recalculate_user_profile cast_integer largest lit min_float
    div from_ℤ extreme
recalculate_user_profile-HasSaneAmounts_example =
    recalculate_user_profile-HasSaneAmounts engine (pos 1) (bought 100) refl
      (lit_mono {m = 0} {n = 100} (omega arith), tt) refl

nine : lit 0 ⊑ lit 9000
nine = lit_mono {m = 0} {n = 9000} (omega arith)

joined_debts : Every HasNoDebt joined.transactions
unfolding create_user
joined_debts = tt

process_opened-adds_example :
    let (response, w') = process_opened shop (queries engine) (pos 1) rows joined in
    (n : ℕ) × (response.success ≡ pos n)
    × Grows (pos 1) (stored joined.transactions) (stored w'.transactions) n
process_opened-adds_example =
    process_opened-adds shop engine (λ v. (v.redis, v.clock, refl)) [] noon (pos 1) rows joined
      (then_step here (register bea)) joined_debts (nine, (nine, (nine, (tt, (tt, tt)))))
