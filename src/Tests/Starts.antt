-- ===== src/Tests/Starts.antt =====
-- The data generator, and the start and the end of the process.
use fraud_detection_lite.Prelude.{
  ℕ, ◌+◌, ◌-◌, ◌≤◌, ◌≡◌, refl, Bool, true, false, not, List, [], ◌∷◌, ◌++◌, ◌⊎◌, if◌then◌else◌,
  length, map, String, some, arith,
}
use fraud_detection_lite.Prelude.Int.{pos}
use fraud_detection_lite.Float.Ops.{Float64, constant, evaluation}
use fraud_detection_lite.Float.Order.{◌⊑◌, finite}
use fraud_detection_lite.Float.Literals.{lit_mono}
use fraud_detection_lite.Constants.{lit}
use fraud_detection_lite.Risk.Confidence.{Between}
use fraud_detection_lite.Time.{Time}
use fraud_detection_lite.Specs.Error.{Error, ok, err, other}
use fraud_detection_lite.Service.Bulk.{process_opened}
use fraud_detection_lite.Store.Interfaces.{queries}
use fraud_detection_lite.System.Generated.{uploaded, process_opened-refuses}
use fraud_detection_lite.Generator.{Rand, Row, Formats, csv_header, csv_record, generate}
use fraud_detection_lite.Generator.Rows.{IsRandom, Follows, generate-Follows}
use fraud_detection_lite.Startup.Database.{PgType, Conn, after_connect, Pgx}
use fraud_detection_lite.Startup.Types.{OneFailed, BothRegistered, after_connect-Registers}
use fraud_detection_lite.Startup.{
  Process, closing, close_database, connection_taken, connection_returned, returned, exited,
  crashed, step, Input, request_starts, midnight, job_ends, listen_fails, signal, jobs_done, idle,
  deadline, start, run, step_serving, step_draining, step_shutting_down, step_closing,
}
use fraud_detection_lite.Startup.Resources.{opened_of}
use fraud_detection_lite.Startup.Stops.{run-returned}
use fraud_detection_lite.Tests.Samples.{noon}
use fraud_detection_lite.Tests.Worlds.{engine, shop, joined}

abbrev quarter : Float64
quarter = constant false 1 4

-- It draws 0 and 0.25 in turn, and the greatest numbers.
abbrev coin : Rand Bool
coin = record { float64 = λ s. (if s then quarter else lit 0, not s); intn = λ n s. (n - 1, not s) }

quarter_⊑ : (lit 0 ⊑ quarter) × (quarter ⊑ lit 1)
unfolding evaluation lit
quarter_⊑ = (finite (omega arith), finite (omega arith))

coin_bounds : (s : Bool) → Between (lit 0) (coin.float64 s).0 (lit 1)
coin_bounds true = quarter_⊑
coin_bounds false = (lit_mono {m = 0} {n = 0} (omega arith), lit_mono {m = 0} {n = 1} (omega arith))

coin-IsRandom : IsRandom coin
coin-IsRandom = record { float64_bounds = coin_bounds; intn-lt = λ n s h. omega arith }

abbrev formats : Formats
formats = record { two_places = λ x. "500.00"; rfc3339 = λ t. "2026-01-01T12:00:00Z" }

abbrev second_day : Time
second_day = record { secs = 90_000; zone = 19_800 }

generate-Follows_example :
    (made : List Row) × (generate coin formats (ok tt) second_day true
      ≡ some (csv_header ∷ map (csv_record formats) made))
    × (length made ≡ 1000)
    × Follows second_day made
generate-Follows_example =
    generate-Follows coin coin-IsRandom formats second_day true (omega arith, omega arith)

-- A row of each kind of mode.
abbrev two_made : List Row
two_made =
    record { amount = lit 500; mode = "CRYPTO"; txn_time = noon }
    ∷ record { amount = lit 1250; mode = "UPI"; txn_time = noon }
    ∷ []

process_opened-refuses_example :
    let response =
      (process_opened shop (queries engine) (pos 1) (uploaded formats two_made) joined).0 in
    (good bad : ℕ) × (response.success ≡ pos good)
    × (response.failed ≡ pos bad)
    × (good + bad ≡ 2)
    × (1 ≤ bad)
process_opened-refuses_example =
    process_opened-refuses shop formats refl engine (pos 1) two_made joined

-- A connection as the types that it knows.
abbrev young : Conn (List PgType)
young = record { query_oid = λ text ts. (ok 16_400, ts); register_type = λ t ts. t ∷ ts }

after_connect-Registers_example :
    let (answer, after) = after_connect young [] in
    ((e : Error) × (answer ≡ err e) × (after ≡ []) × OneFailed young [] e)
    ⊎ ((answer ≡ ok tt) × BothRegistered young [] [] after)
after_connect-Registers_example =
    after_connect-Registers young (λ ts. ts) (record { kept = λ text s. refl; added = λ t s. refl })
      []

abbrev pgx : Pgx String String
pgx = record { parse_config = λ t. ok t; new_with_config = λ t. ok t; ping = λ t. ok tt }

abbrev stopping : List Input
stopping = request_starts ∷ midnight ∷ signal ∷ job_ends (ok tt) ∷ jobs_done ∷ deadline ∷ []

abbrev busy_process : Process
busy_process =
    run (request_starts ∷ connection_taken ∷ midnight ∷ []) (start pgx (ok tt) "postgres://")

run-returned_example :
    (run
      (signal ∷ (midnight ∷ job_ends (ok tt) ∷ [])
        ++ (jobs_done ∷ (idle ∷ []) ++ (deadline ∷ idle ∷ connection_returned ∷ [])))
      busy_process).phase
    ≡ returned
unfolding run step start step_serving step_draining step_shutting_down
run-returned_example =
    run-returned busy_process (midnight ∷ job_ends (ok tt) ∷ []) (idle ∷ [])
      (idle ∷ connection_returned ∷ []) refl (refl, (refl, tt)) (omega arith) (omega arith)

-- A request that keeps its connection keeps main from returning after the deadline.
blocked :
    (run
      (signal ∷ jobs_done ∷ deadline ∷ idle ∷ deadline ∷ [])
      (run (request_starts ∷ connection_taken ∷ []) (start pgx (ok tt) "postgres://"))).phase
    ≡ closing
unfolding run step start step_draining step_shutting_down step_closing
blocked = refl

-- The pool whose ping failed is opened and never closed.
leaks :
    opened_of
      (start (record pgx { ping = λ t. err (other "no answer") }) (ok tt) "postgres://").effects
    ≡ close_database ∷ []
unfolding start
leaks = refl

-- Nothing is closed after a failure of the listener, and a DB_URI that cannot be parsed ends in a panic.
exits : (run (listen_fails ∷ signal ∷ []) (start pgx (ok tt) "postgres://")).phase ≡ exited
unfolding run step start
exits = refl

panics :
    (start
      (record pgx { parse_config = λ t. err (other "cannot parse") })
      (ok tt)
      "postgres//").phase
    ≡ crashed
unfolding start
panics = refl
