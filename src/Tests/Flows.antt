-- ===== src/Tests/Flows.antt =====
-- Requests after and beside each other, and the reading of a file.
use fraud_detection_lite.Prelude.{
  ◌≤◌, ◌<◌, ◌≡◌, sym, ap, refl, List, [], ◌∷◌, length, String, some, none, arith,
}
use fraud_detection_lite.Prelude.Text.{trim_prefix}
use fraud_detection_lite.Prelude.Int.{pos}
use fraud_detection_lite.Constants.{lit}
use fraud_detection_lite.Specs.Error.{Error, Result, ok, other}
use fraud_detection_lite.Specs.Txn.{CreateTransactionResponse, validate}
use fraud_detection_lite.Service.Bulk.{BulkState, process_records}
use fraud_detection_lite.Service.Bulk.Reader.{
  Read, record_read, read_error, end_of_file, read_result, read_loop, ReadsTo, read_loop-ends,
  read_loop-repeats,
}
use fraud_detection_lite.Service.Session.{get_claims_from_request}
use fraud_detection_lite.Api.Router.{protected, post_transactions, get_transaction}
use fraud_detection_lite.System.{serve_world}
use fraud_detection_lite.System.Accepted.{IsAccepted, answered}
use fraud_detection_lite.System.Fetched.{IsShown}
use fraud_detection_lite.System.Posted.{HasRoom, posted-IsShown}
use fraud_detection_lite.Store.Invariant.{IsConsistent}
use fraud_detection_lite.Store.Tables.{World}
use fraud_detection_lite.Store.Users.{create_user}
use fraud_detection_lite.Api.Http.{created, data_chunk}
use fraud_detection_lite.Float.Ops.{eq, lt}
use fraud_detection_lite.System.Burst.{serve_burst, successes}
use fraud_detection_lite.System.Burst.Inserted.{AddsQuiet, serve_burst-unreported}
use fraud_detection_lite.Tests.Samples.{world, known, seasoned, request}
use fraud_detection_lite.Tests.Worlds.{engine, shop, guard, codec, asks, bea_claims, joined}

-- A reader of rows that are left, and one whose disk has failed.
abbrev next_row : List (List String) → Read × List (List String)
next_row [] = (end_of_file, [])
next_row (row ∷ rows) = (record_read row, rows)

abbrev broken : Error
broken = other "input/output error"

abbrev failing : List (List String) → Read × List (List String)
failing rows = (read_error broken, rows)

abbrev two_rows : List (List String)
two_rows = ("9000" ∷ "UPI" ∷ "yesterday" ∷ []) ∷ ("9000" ∷ []) ∷ []

abbrev first_state : BulkState
first_state = record { processed = 0; success = 0; failed = 0; batch_count = 0; profile = seasoned }

read_loop-ends_example :
    (rows : List (Result (List String))) × ReadsTo next_row two_rows rows
    × (length rows ≤ 2)
    × (read_loop world known (pos 7) next_row 3 two_rows first_state []
        ≡ some (process_records world known (pos 7) rows first_state []))
unfolding read_result
read_loop-ends_example =
    read_loop-ends world known (pos 7) next_row (λ rows. length rows) two_rows first_state []
      consumes
  where
    consumes :
        (rows : List (List String)) (row : Result (List String))
        → read_result (next_row rows).0 ≡ some row
        → length (next_row rows).1 < length rows
    consumes [] row h = cc
    consumes (r ∷ rows) row h = omega arith

read_loop-repeats_example :
    read_loop world known (pos 7) failing 1000 two_rows first_state [] ≡ none
read_loop-repeats_example =
    read_loop-repeats world known (pos 7) failing two_rows broken 1000 first_state [] refl

serve_burst-unreported_example :
    let reqs = request ∷ request ∷ request ∷ request ∷ request ∷ request ∷ [] in
    let (answers, w') = serve_burst shop engine (pos 1) reqs joined in
    AddsQuiet joined w' (successes answers)
unfolding create_user
serve_burst-unreported_example =
    serve_burst-unreported shop engine (pos 1)
      (request ∷ request ∷ request ∷ request ∷ request ∷ request ∷ []) joined
      (λ v. (v.redis, v.clock, refl)) (omega arith)

bea-IsAccepted : (v : World) → IsAccepted guard "Bearer bea" bea_claims v
unfolding get_claims_from_request trim_prefix
bea-IsAccepted v = record { claimed = refl; unlisted = refl }

joined-IsConsistent : IsConsistent joined
unfolding create_user
joined-IsConsistent = (tt, tt, (tt, tt), tt)

joined-HasRoom : HasRoom (pos 1) joined
unfolding create_user
joined-HasRoom = record { known = refl; few = omega arith; room = omega arith }

joined-next_transaction_id : joined.next_transaction_id ≡ 1
unfolding create_user
joined-next_transaction_id = refl

request-is_valid : validate request ≡ ok tt
unfolding validate eq lt lit
request-is_valid = refl

posted-IsShown_example :
    let (posted, after) =
      serve_world shop guard codec engine
        (protected post_transactions)
        (asks "POST" "Bearer bea")
        joined in
    let (shown, w') =
      serve_world shop guard codec engine
        (protected (get_transaction "1"))
        (asks "GET" "Bearer bea")
        after in
    (res : CreateTransactionResponse) × (posted.sent ≡ some 200)
    × (posted.body ≡ answered codec (data_chunk (created res)))
    × (res.transaction_id ≡ pos joined.next_transaction_id)
    × IsShown codec (pos 1) request res shown
posted-IsShown_example =
    let after =
      (serve_world shop guard codec engine (protected post_transactions) (asks "POST" "Bearer bea")
        joined).1 in
    posted-IsShown shop guard codec engine "Bearer bea" bea_claims (λ v. (v.redis, v.clock, refl))
      (asks "POST" "Bearer bea") (asks "GET" "Bearer bea") "1" request joined joined-IsConsistent
      joined-HasRoom (bea-IsAccepted joined) refl refl refl refl request-is_valid
      (bea-IsAccepted after) refl refl (ap (λ n. ok (pos n)) (sym joined-next_transaction_id))
