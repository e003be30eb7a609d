-- ===== src/Startup.antt =====
-- cmd/main.go with Start of internal/worker/cron.go: the start of the process, what it does while it
-- serves, and its end. A Process is what main holds, and a run is a list of inputs: the requests and
-- jobs that begin and end, the signal, and the returns of the libraries that main waits for.
pub mod Database
pub mod Types
pub mod Resources
pub mod Ends
pub mod Stops
use fraud_detection_lite.Prelude.{
  ℕ, zero, suc, ◌+◌, ◌-◌, ◌==◌, Bool, false, not, String, List, [], ◌∷◌, if◌then◌else◌,
}
use fraud_detection_lite.Specs.Error.{Result, ok, err}
use fraud_detection_lite.Startup.Database.{
  Pgx, Attempt, connected, refused, unanswered, panicked, initialize_database,
}

-- What the process does to the outside.
pub data Effect : Type 0 where
  logged : String → Effect
  open_database : Effect
  open_redis : Effect
  close_database : Effect
  close_redis : Effect
  sync_logger : Effect

-- While it serves, waits for the jobs, waits for Shutdown, and waits in the deferred db.Close for the
-- connections that are still in use; and how it ends: by a return of main, by os.Exit in logger.Fatal,
-- or by a panic.
pub data Phase : Type 0 where
  serving : Phase
  draining : Phase
  shutting_down : Phase
  closing : Phase
  returned : Phase
  exited : Phase
  crashed : Phase

-- The deferred calls, the last one first, the effects, the latest first, and the connections of the pool
-- that are in use.
pub record Process : Type 0 where
  pub phase : Phase
  pub deferred : List Effect
  pub effects : List Effect
  pub requests : ℕ
  pub jobs : ℕ
  pub connections : ℕ

abbrev pub perform : Effect → Process → Process
perform e p = record p { effects = e ∷ p.effects }

abbrev pub defer : Effect → Process → Process
defer e p = record p { deferred = e ∷ p.deferred }

-- db.Close of pgxpool blocks until all connections are returned to the pool; no other deferred call waits.
abbrev pub blocks : Effect → ℕ → Bool
blocks (logged text) connections = false
blocks open_database connections = false
blocks open_redis connections = false
blocks close_database connections = not (connections == 0)
blocks close_redis connections = false
blocks sync_logger connections = false

-- The deferred calls are made in their order, at a return and at a panic, up to one that blocks.
abbrev pub make_deferred : Phase → List Effect → Process → Process
make_deferred end [] p = record p { phase = end; deferred = [] }
make_deferred end (e ∷ es) p =
    let rest = make_deferred end es (perform e p) in
    if blocks e p.connections then record p { phase = closing; deferred = e ∷ es } else rest

abbrev pub leave : Phase → Process → Process
leave end p = make_deferred end p.deferred p

abbrev pub launched : Process
launched = record {
  phase = serving;
  deferred = sync_logger ∷ [];
  effects = [];
  requests = 0;
  jobs = 0;
  connections = 0;
}

-- Redis' client, the services, the router, the listener and the cron schedule: none of them fails here.
abbrev pub start_services : Process → Process
start_services p = defer close_redis (perform (logged "Connected to Redis") (perform open_redis p))

abbrev pub start_connected : {Pool : Type 0} → Attempt Pool → Process → Process
start_connected panicked p = leave crashed p
start_connected (refused e) p = leave returned (perform (logged "Database Error") p)
start_connected (unanswered pool e) p =
    leave returned (perform (logged "Database Error") (perform open_database p))
start_connected (connected pool) p =
    start_services
      (defer close_database (perform (logged "Connected to Database!") (perform open_database p)))

abbrev pub start_loaded : {Pool : Type 0} → Attempt Pool → Result (Unit {0}) → Process
start_loaded database (err e) =
    leave returned (perform (logged "Error loading environment") launched)
start_loaded database (ok loaded) =
    start_connected database
      (defer (logged "Shutting Down Server...") (perform (logged "Starting Server...") launched))

-- main up to the wait for a signal, with what godotenv.Load gave and the value of DB_URI.
unfoldable pub start :
    {Settings Pool : Type 0} → Pgx Settings Pool → Result (Unit {0}) → String → Process
unfolding initialize_database
start pgx env_loaded db_uri = start_loaded (initialize_database pgx db_uri) env_loaded

pub data Input : Type 0 where
  request_starts : Input
  request_ends : Input
  connection_taken : Input
  connection_returned : Input
  midnight : Input
  job_ends : Result (Unit {0}) → Input
  listen_fails : Input
  signal : Input
  jobs_done : Input
  idle : Input
  deadline : Input

abbrev pub start_request : Process → Process
start_request p = record p { requests = suc p.requests }

abbrev pub end_request : Process → Process
end_request p = record p { requests = p.requests - 1 }

-- A request or a job takes a connection of the pool, and gives it back.
abbrev pub take_connection : Process → Process
take_connection p = record p { connections = suc p.connections }

abbrev pub return_connection : Process → Process
return_connection p = record p { connections = p.connections - 1 }

-- updateAllProfiles begins, on a goroutine of the schedule.
abbrev pub start_job : Process → Process
start_job p = perform (logged "Starting profile update...") (record p { jobs = suc p.jobs })

abbrev pub job_message : Result (Unit {0}) → String
job_message (ok r) = "Profile update completed"
job_message (err e) = "Failed to update profiles"

abbrev pub job_ended : ℕ → Result (Unit {0}) → Process → Process
job_ended zero r p = p
job_ended (suc n) r p = perform (logged (job_message r)) (record p { jobs = n })

-- It ends, with the result of RebuildAllUserProfiles.
abbrev pub end_job : Result (Unit {0}) → Process → Process
end_job r p = job_ended p.jobs r p

-- logger.Fatal ends the process without the deferred calls.
abbrev pub exit : Process → Process
exit p = record (perform (logged "Error starting Server") p) { phase = exited }

-- While main waits for a signal.
unfoldable pub step_serving : Input → Process → Process
step_serving request_starts p = start_request p
step_serving request_ends p = end_request p
step_serving connection_taken p = take_connection p
step_serving connection_returned p = return_connection p
step_serving midnight p = start_job p
step_serving (job_ends r) p = end_job r p
step_serving listen_fails p = exit p
step_serving signal p = record (perform (logged "Received terminate, gracefully shutting down") p) {
  phase = draining;
}
step_serving jobs_done p = p
step_serving idle p = p
step_serving deadline p = p

-- The schedule is stopped, and main waits until no job runs; the server still serves.
unfoldable pub step_draining : Input → Process → Process
step_draining request_starts p = start_request p
step_draining request_ends p = end_request p
step_draining connection_taken p = take_connection p
step_draining connection_returned p = return_connection p
step_draining midnight p = p
step_draining (job_ends r) p = end_job r p
step_draining listen_fails p = exit p
step_draining signal p = p
step_draining jobs_done p = if p.jobs == 0 then record p { phase = shutting_down } else p
step_draining idle p = p
step_draining deadline p = p

-- The listener is closed, and Shutdown waits for the requests that are served, at most 30 seconds.
unfoldable pub step_shutting_down : Input → Process → Process
step_shutting_down request_starts p = p
step_shutting_down request_ends p = end_request p
step_shutting_down connection_taken p = take_connection p
step_shutting_down connection_returned p = return_connection p
step_shutting_down midnight p = p
step_shutting_down (job_ends r) p = end_job r p
step_shutting_down listen_fails p = p
step_shutting_down signal p = p
step_shutting_down jobs_done p = p
step_shutting_down idle p = if p.requests == 0 then leave returned p else p
step_shutting_down deadline p = leave returned p

-- The deferred calls go on when the last connection is returned; the closed pool gives out no other.
unfoldable pub step_closing : Input → Process → Process
step_closing request_starts p = p
step_closing request_ends p = end_request p
step_closing connection_taken p = p
step_closing connection_returned p = leave returned (return_connection p)
step_closing midnight p = p
step_closing (job_ends r) p = end_job r p
step_closing listen_fails p = p
step_closing signal p = p
step_closing jobs_done p = p
step_closing idle p = p
step_closing deadline p = p

-- One input in a phase; after its end the process takes none.
unfoldable pub step_in : Phase → Input → Process → Process
unfolding step_serving
step_in serving i p = step_serving i p
step_in draining i p = step_draining i p
step_in shutting_down i p = step_shutting_down i p
step_in closing i p = step_closing i p
step_in returned i p = p
step_in exited i p = p
step_in crashed i p = p

unfoldable pub step : Input → Process → Process
unfolding step_in
step i p = step_in p.phase i p

unfoldable pub run : List Input → Process → Process
unfolding step
run [] p = p
run (i ∷ rest) p = run rest (step i p)
