-- ===== src/Lib.antt =====
-- A verification library for the fraud detection service. A user's transactions arrive one by one
-- or as an uploaded file; each is scored by four risk factors against the user's profile, the score
-- is dampened by the trust in the profile, a decision is taken, and a row is inserted.
--
-- The parts, and the files that model them:
--
-- Float models Go's float64. Ops holds the values and operations: a value is NaN, an infinity, or a
-- sign and a magnitude in units of 2 ^ -1074, and every operation rounds its exact result once, to
-- the nearest, ties to even, as on amd64 (no fused multiply-add). Magnitudes that no float64 has
-- are values of the type as well; the theorems hold for those too. Round is the rounding of a
-- ratio, on fuel of 3200 steps, one for each halving of a quotient, more than the 2 ^ 3173 that a
-- quotient of two float64 can reach; Enough shows that more fuel changes no sum, product or
-- quotient. Order, Monotone, MinMax, Literals and NotNan hold lemmas. The order ⊑ compares values
-- with a clear sign bit. int32(x) for a value out of range is the platform's choice in Go, and a
-- parameter here.
--
-- Time is time.Time as seconds and an offset from UTC; Constants is internal/pkg/constants/txn.go;
-- Prelude holds shared names, the int32 and int64 wraps and text tests.
--
-- Repository/Models and Repository/Queries are the rows of internal/repository/models.go,
-- transactions.sql.go and user_behavior_profile.sql.go. Queries is also an interface: the database
-- is a record of operations on a state S that a theorem leaves open. Where a theorem needs to know
-- what the database does, Service/Ledger states it: the inserted rows form a log that only
-- CreateTransaction extends. System/Uploads shows that the rows of the table of transactions do.
--
-- Specs/Error is internal/pkg/errors/errors.go, with the texts as `message`, and Specs/Txn is
-- internal/pkg/specs/txn.go; Validate is `validate`, and `ok` is its nil error.
-- Specs/Txn/Validation has its theorem.
--
-- Risk/Factors and Risk/Score are internal/pkg/helpers/txn.go, one function each under the same
-- name in antt's spelling; `analyze_risks` is the part that AnalyzeTransaction and
-- AnalyzeBulkTransactions share. The proofs stand in Confidence, Amount, ZScore, Frequency, NewMode
-- and TimeOfDay, one for each factor, in Total and Worst for the aggregate and its dampening, and
-- in Limits, Decision, Triggers and Overflow for the analysis.
--
-- Profile/Update is internal/pkg/helpers/profile_update.go, as a function from the profile before
-- to the profile after; Counts and Behaviour have its theorems.
--
-- Service/Transaction and Service/Bulk are internal/service/txn_service.go. Service/Environment is
-- the clock, the parsers and the text functions of Go's library, and Upload is what the file
-- libraries make of a file: the reads, in order, until its end. A counter of the upload is a
-- natural number, since it is at most the number of rows. An index out of range in the header row
-- is the outcome `panic`. Service/Bulk/Reader is the loop on a reader that need not end, on fuel of
-- one step for each read: one more than there is left of a file is enough where every read uses up
-- some of it. Refused is about rows that the database does not take.
--
-- Specs/User is internal/pkg/specs/user.go. Service/Session is internal/service/user_service.go
-- with internal/pkg/helpers/auth.go and internal/pkg/middleware/auth.go: `login`, `signup`,
-- `logout`, `make_jwt`, `get_claims_from_request`, and `authenticate` for AuthMiddleware, which
-- gives the claims with which a request goes on, or the error of the response. Security is the
-- interface to bcrypt, uuid, the clock, the environment, the JWT library and Redis;
-- Service/Session/Tokens states what it needs of them. Times of tokens are whole seconds. The
-- modules called Keeps show which predicates of the state an operation keeps.
--
-- Api is internal/api with internal/pkg/middleware. Http is response_writer.go and the recorder of
-- log.go: a Writer holds the status that net/http sent, which the first WriteHeader decides, and
-- the one that the logger records, which the last decides. Users and Transactions are the handlers,
-- one function each with its name after `handle_`, and decoder.go. Router is router.go with
-- AuthMiddleware around the protected handlers: `route` finds the route of a request, `serve` gives
-- its response. Codec is the interface to encoding/json, strconv, regexp and the connection; the
-- variable of a path is its second segment. Answers and Keeps hold lemmas: what a response consists
-- of, and which predicates of the state a request keeps. A listing without rows is an empty list,
-- which Go writes as null.
--
-- Store is the database: the statements of internal/repository/*.sql.go that the program runs, on
-- tables in memory (a World, with the keys of Redis beside them), with the constraints of
-- internal/db/migrations. A statement is one step, and one that fails changes nothing but a
-- sequence. Engine holds what the statements leave to PostgreSQL: AVG and STDDEV, the order of rows
-- with the same time, and the wall clock. Errors of the connection are not modelled here; the
-- theorems on the services leave the database open, and so cover them. Interfaces passes the tables
-- to the services and the handlers. Inserts, Invariant, Rewrites, Refresh, Rebuilt, Sanity and
-- Lookup hold the theorems. Profiles/Learned says what a profile should hold of some transactions,
-- apart from the statements, and Learns compares the two statements that write profiles with it.
--
-- System puts the parts together: `serve_world` serves a request on the tables, and Step is one
-- statement of any request, or of the job at midnight of internal/worker/cron.go. Reach is any
-- sequence of steps, and so has those of requests that run at the same time as well. Cold is a
-- server to which nobody uploads a file. Burst is requests that are all analysed before any is
-- inserted, which CreateTransaction allows as it counts and inserts in two statements. Accepted,
-- Fetched and Posted follow one POST and the GET of its transaction through the router, and
-- Generated an upload of the data generator's rows. Sane shows that reached tables have the
-- profiles that the limits of Risk need, and Uploads what an upload inserts into such tables.
--
-- Startup is cmd/main.go with the schedule of internal/worker/cron.go: `start` is main up to its
-- wait for a signal, with the deferred calls as a list, and `step` is what one input does in each
-- phase: a request or a job that begins or ends, a connection of the pool that is taken or returned, a
-- failure of the listener, a signal, and the returns of the libraries that main waits for. The
-- deferred db.Close waits for the connections in use, as that of pgxpool does. Startup/Database is internal/repository/config.go
-- and init.go, with pgx as the records Conn and Pgx; Resources says what is open in each
-- phase; Types, Ends and Stops hold the theorems.
--
-- Generator is generate_csv.go, with math/rand as the record Rand over a state, and with the
-- location's offset from UTC the same at all times of a file. Amounts, Times and Rows hold the
-- theorems.
--
-- Helpers is internal/pkg/helpers/job_helper.go and type-changers.go, which nothing calls.
-- Store/Upserts and Store/Statistics are statements that nothing runs, and Repository/Scan reads
-- and writes the values of the enumerations.
--
-- Not modelled: internal/repository/db.go, which passes the connection on; errors of the connection
-- while a statement runs on the tables; the zone and the fractions of a second that a TIMESTAMP
-- column drops, since a row keeps the time that was written and Engine reads its wall clock; the
-- printing of log lines other than those of the start; the cron expression; the options of the
-- Redis client; CORS.
--
-- Tests holds tests by evaluation, and each theorem of the list below at a concrete input.
pub mod Prelude
pub mod Float
pub mod Generator
pub mod Time
pub mod Constants
pub mod Repository
pub mod Specs
pub mod Risk
pub mod Profile
pub mod Service
pub mod Tests
pub mod Helpers
pub mod Api
pub mod Store
pub mod System
pub mod Startup
