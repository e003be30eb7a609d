-- ===== src/Startup/Stops.antt =====
-- cmd/main.go: that a signal ends the process.
use mathlib.Core.Path.{subst}
use fraud_detection_lite.Prelude.{
  ℕ, ◌+◌, ◌-◌, ◌≤◌, ◌≡◌, refl, sym, ap, ◌∙◌, Bool, true, false, List, [], ◌∷◌, ◌++◌, Every, ◌⊎◌,
  inl, inr, Bool-cases, zero, suc, ◌==◌, arith,
}
use fraud_detection_lite.Specs.Error.{Result}
use fraud_detection_lite.Startup.{
  Process, serving, draining, shutting_down, returned, Input, request_starts, request_ends,
  midnight, job_ends, logged, open_database, open_redis, close_database, close_redis, sync_logger,
  listen_fails, signal, jobs_done, idle, deadline, step_serving, step_draining, closing,
  step_closing, connection_taken, connection_returned, make_deferred, return_connection, Effect,
  perform, blocks, leave, job_ended, step_shutting_down, step_in, step, run,
}
use fraud_detection_lite.Startup.Resources.{job_ended-phase, job_ended-jobs}

-- What can happen while main waits for the jobs, without an end of the wait or of the listener.
abbrev pub is_waiting : Input → Bool
is_waiting request_starts = true
is_waiting request_ends = true
is_waiting connection_taken = true
is_waiting connection_returned = true
is_waiting midnight = true
is_waiting (job_ends r) = true
is_waiting listen_fails = false
is_waiting signal = true
is_waiting jobs_done = false
is_waiting idle = true
is_waiting deadline = true

abbrev pub ended_one : Input → ℕ
ended_one request_starts = 0
ended_one request_ends = 0
ended_one connection_taken = 0
ended_one connection_returned = 0
ended_one midnight = 0
ended_one (job_ends r) = 1
ended_one listen_fails = 0
ended_one signal = 0
ended_one jobs_done = 0
ended_one idle = 0
ended_one deadline = 0

-- The jobs that end.
abbrev pub ended : List Input → ℕ
ended [] = 0
ended (i ∷ rest) = ended_one i + ended rest

abbrev pub given_back_one : Input → ℕ
given_back_one request_starts = 0
given_back_one request_ends = 0
given_back_one connection_taken = 0
given_back_one connection_returned = 1
given_back_one midnight = 0
given_back_one (job_ends r) = 0
given_back_one listen_fails = 0
given_back_one signal = 0
given_back_one jobs_done = 0
given_back_one idle = 0
given_back_one deadline = 0

-- The connections that are returned to the pool.
abbrev pub given_back : List Input → ℕ
given_back [] = 0
given_back (i ∷ rest) = given_back_one i + given_back rest

run-append :
    (before after : List Input) (p : Process) → run (before ++ after) p ≡ run after (run before p)
unfolding run
run-append [] after p = refl
run-append (i ∷ before) after p = run-append before after (step i p)

step_draining-jobs :
    (i : Input) (p : Process)
    → p.phase ≡ draining
    → is_waiting i ≡ true
    → ((step_draining i p).phase ≡ draining) × ((step_draining i p).jobs ≡ p.jobs - ended_one i)
unfolding step_draining
step_draining-jobs request_starts p e w = (e, omega arith)
step_draining-jobs request_ends p e w = (e, omega arith)
step_draining-jobs connection_taken p e w = (e, omega arith)
step_draining-jobs connection_returned p e w = (e, omega arith)
step_draining-jobs midnight p e w = (e, omega arith)
step_draining-jobs (job_ends r) p e w =
    (job_ended-phase p.jobs r p ∙ e, job_ended-jobs p.jobs r p refl)
step_draining-jobs listen_fails p e w = cc
step_draining-jobs signal p e w = (e, omega arith)
step_draining-jobs jobs_done p e w = cc
step_draining-jobs idle p e w = (e, omega arith)
step_draining-jobs deadline p e w = (e, omega arith)

step-draining : (i : Input) (p : Process) → p.phase ≡ draining → step i p ≡ step_draining i p
unfolding step step_in
step-draining i p e = ap (λ ph. step_in ph i p) e

step-shutting_down :
    (i : Input) (p : Process) → p.phase ≡ shutting_down → step i p ≡ step_shutting_down i p
unfolding step step_in
step-shutting_down i p e = ap (λ ph. step_in ph i p) e

step-closing : (i : Input) (p : Process) → p.phase ≡ closing → step i p ≡ step_closing i p
unfolding step step_in
step-closing i p e = ap (λ ph. step_in ph i p) e

step-returned : (i : Input) (p : Process) → p.phase ≡ returned → step i p ≡ p
unfolding step step_in
step-returned i p e = ap (λ ph. step_in ph i p) e

-- The wait ends with the last job.
run-drained :
    (during : List Input) (p : Process)
    → p.phase ≡ draining
    → Every (λ i. is_waiting i ≡ true) during
    → p.jobs ≤ ended during
    → ((run during p).phase ≡ draining) × ((run during p).jobs ≡ 0)
unfolding run
run-drained [] p e w l = (e, omega arith)
run-drained (i ∷ rest) p e (w, ws) l =
    let (kept, fewer) = step_draining-jobs i p e w in
    run-drained rest (step i p) (ap (λ q. q.phase) (step-draining i p e) ∙ kept) ws
      (omega (arith, ap (λ q. q.jobs) (step-draining i p e), fewer))

-- Main has returned, or the deferred db.Close waits for at most n connections.
IsLeaving : ℕ → Process → Type 0
IsLeaving n p =
    (p.phase ≡ returned) ⊎ ((p.phase ≡ closing) × (1 ≤ p.connections) × (p.connections ≤ n))

blocks-positive : (e : Effect) (n : ℕ) → blocks e n ≡ true → 1 ≤ n
blocks-positive (logged text) n h = cc
blocks-positive open_database n h = cc
blocks-positive open_redis n h = cc
blocks-positive close_database zero h = cc
blocks-positive close_database (suc n) h = omega arith
blocks-positive close_redis n h = cc
blocks-positive sync_logger n h = cc

left-IsLeaving :
    (es : List Effect) (n : ℕ) (p : Process)
    → p.connections ≤ n
    → IsLeaving n (make_deferred returned es p)
unfolding IsLeaving
left-IsLeaving [] n p l = inl refl
left-IsLeaving (e ∷ es) n p l = elim (Bool-cases (blocks e p.connections)) [
  | inl held ↦ rw held (inr (refl, blocks-positive e p.connections held, l))
  | inr free ↦ rw free (left-IsLeaving es n (perform e p) l)
]

-- The wait for Shutdown, or what follows it.
IsClosing : Process → Type 0
IsClosing p = (p.phase ≡ shutting_down) ⊎ IsLeaving p.connections p

IsLeaving-least : (n m : ℕ) (p : Process) → IsLeaving n p → p.connections ≤ m → IsLeaving m p
unfolding IsLeaving
IsLeaving-least n m p (inl e) l = inl e
IsLeaving-least n m p (inr (e, h, k)) l = inr (e, h, l)

IsLeaving-self : (n : ℕ) (p : Process) → IsLeaving n p → IsLeaving p.connections p
IsLeaving-self n p h = IsLeaving-least n p.connections p h (omega arith)

leave-IsLeaving : (p : Process) → IsLeaving (leave returned p).connections (leave returned p)
leave-IsLeaving p =
    IsLeaving-self p.connections (leave returned p)
      (left-IsLeaving p.deferred p.connections p (omega arith))

step_shutting_down-IsClosing :
    (i : Input) (p : Process) → p.phase ≡ shutting_down → IsClosing (step_shutting_down i p)
unfolding step_shutting_down IsClosing
step_shutting_down-IsClosing request_starts p e = inl e
step_shutting_down-IsClosing request_ends p e = inl e
step_shutting_down-IsClosing connection_taken p e = inl e
step_shutting_down-IsClosing connection_returned p e = inl e
step_shutting_down-IsClosing midnight p e = inl e
step_shutting_down-IsClosing (job_ends r) p e = inl (job_ended-phase p.jobs r p ∙ e)
step_shutting_down-IsClosing listen_fails p e = inl e
step_shutting_down-IsClosing signal p e = inl e
step_shutting_down-IsClosing jobs_done p e = inl e
step_shutting_down-IsClosing idle p e = elim (Bool-cases (p.requests == 0)) [
  | inl quiet ↦ rw quiet (inr (leave-IsLeaving p))
  | inr busy ↦ rw busy (inl e)
]
step_shutting_down-IsClosing deadline p e = inr (leave-IsLeaving p)

job_ended-connections :
    (n : ℕ) (r : Result (Unit {0})) (p : Process) → (job_ended n r p).connections ≡ p.connections
job_ended-connections zero r p = refl
job_ended-connections (suc n) r p = refl

-- A step of the wait in db.Close: with the last connection it ends.
step_closing-IsLeaving :
    (i : Input) (n : ℕ) (p : Process)
    → p.phase ≡ closing
    → 1 ≤ p.connections
    → p.connections ≤ given_back_one i + n
    → IsLeaving n (step_closing i p)
unfolding step_closing IsLeaving
step_closing-IsLeaving request_starts n p e h l = inr (e, h, omega arith)
step_closing-IsLeaving request_ends n p e h l = inr (e, h, omega arith)
step_closing-IsLeaving connection_taken n p e h l = inr (e, h, omega arith)
step_closing-IsLeaving connection_returned n p e h l =
    left-IsLeaving p.deferred n (return_connection p) (omega arith)
step_closing-IsLeaving midnight n p e h l = inr (e, h, omega arith)
step_closing-IsLeaving (job_ends r) n p e h l = inr (
  job_ended-phase p.jobs r p ∙ e,
  omega (arith, job_ended-connections p.jobs r p),
  omega (arith, job_ended-connections p.jobs r p),
)
step_closing-IsLeaving listen_fails n p e h l = inr (e, h, omega arith)
step_closing-IsLeaving signal n p e h l = inr (e, h, omega arith)
step_closing-IsLeaving jobs_done n p e h l = inr (e, h, omega arith)
step_closing-IsLeaving idle n p e h l = inr (e, h, omega arith)
step_closing-IsLeaving deadline n p e h l = inr (e, h, omega arith)

step-IsLeaving :
    (i : Input) (n : ℕ) (p : Process) → IsLeaving (given_back_one i + n) p → IsLeaving n (step i p)
unfolding IsLeaving
step-IsLeaving i n p (inl e) = inl (ap (λ q. q.phase) (step-returned i p e) ∙ e)
step-IsLeaving i n p (inr (e, h, l)) =
    subst (IsLeaving n) (sym (step-closing i p e)) (step_closing-IsLeaving i n p e h l)

step-IsClosing : (i : Input) (p : Process) → IsClosing p → IsClosing (step i p)
unfolding IsClosing
step-IsClosing i p (inl e) =
    subst IsClosing (sym (step-shutting_down i p e)) (step_shutting_down-IsClosing i p e)
step-IsClosing i p (inr h) = inr (
    IsLeaving-self p.connections (step i p) (
      step-IsLeaving i p.connections p
        (IsLeaving-least p.connections (given_back_one i + p.connections) p h (omega arith))))

run-IsClosing : (later : List Input) (p : Process) → IsClosing p → IsClosing (run later p)
unfolding run
run-IsClosing [] p h = h
run-IsClosing (i ∷ rest) p h = run-IsClosing rest (step i p) (step-IsClosing i p h)

-- After the deadline, main only waits for the connections in use.
deadline-IsLeaving :
    (n : ℕ) (p : Process) → IsClosing p → p.connections ≤ n → IsLeaving n (step deadline p)
unfolding IsClosing step_shutting_down
deadline-IsLeaving n p (inl e) l =
    subst (IsLeaving n) (sym (step-shutting_down deadline p e)) (left-IsLeaving p.deferred n p l)
deadline-IsLeaving n p (inr h) l =
    step-IsLeaving deadline n p
      (IsLeaving-least p.connections (given_back_one deadline + n) p h (omega (arith, l)))

refuted : {n : ℕ} → 1 ≤ n → n ≤ 0 → ⊥
refuted h l = omega arith

run-leaves :
    (last : List Input) (p : Process)
    → IsLeaving (given_back last) p
    → (run last p).phase ≡ returned
unfolding run IsLeaving
run-leaves [] p (inl e) = e
run-leaves [] p (inr (e, h, l)) = absurd (refuted h l)
run-leaves (i ∷ rest) p h = run-leaves rest (step i p) (step-IsLeaving i (given_back rest) p h)

step_draining-closes : (p : Process) → p.jobs ≡ 0 → IsClosing (step_draining jobs_done p)
unfolding step_draining IsClosing
step_draining-closes p k = rw k (inl refl)

signal-drains :
    (p : Process)
    → p.phase ≡ serving
    → ((step signal p).phase ≡ draining) × ((step signal p).jobs ≡ p.jobs)
unfolding step step_in step_serving
signal-drains p e = rw e (refl, refl)

-- A signal ends a process that serves, as long as the listener does not fail: the wait for the jobs ends
-- once those that run have ended, however many midnights pass, and Shutdown ends after 30 seconds,
-- whatever requests begin, end or hang. Main then returns once the connections of the pool that are
-- in use after the wait for Shutdown have been returned, whatever else happens.
pub run-returned :
    (p : Process) (during later last : List Input)
    → p.phase ≡ serving
    → Every (λ i. is_waiting i ≡ true) during
    → p.jobs ≤ ended during
    → (run (signal ∷ (during ++ (jobs_done ∷ later))) p).connections ≤ given_back last
    → (run (signal ∷ (during ++ (jobs_done ∷ (later ++ deadline ∷ last)))) p).phase ≡ returned
unfolding run
run-returned p during later last e w l c =
    let (drains, same) = signal-drains p e in
    let (drained, none_left) = run-drained during (step signal p) drains w (omega (arith, same)) in
    let q = run during (step signal p) in
    let closes = run-IsClosing later (step jobs_done q) (
      subst IsClosing (sym (step-draining jobs_done q drained))
        (step_draining-closes q none_left)) in
    let few =
      subst (λ r. r.connections ≤ given_back last)
        (run-append during (jobs_done ∷ later) (step signal p)) c in
    ap (λ r. r.phase) (run-append during (jobs_done ∷ (later ++ deadline ∷ last)) (step signal p))
    ∙ ap (λ r. r.phase) (run-append later (deadline ∷ last) (step jobs_done q))
    ∙ run-leaves last (step deadline (run later (step jobs_done q)))
        (deadline-IsLeaving (given_back last) (run later (step jobs_done q)) closes few)
