-- ===== src/Startup/Resources.antt =====
-- The resources of the process of cmd/main.go: what is open and what is closed in each phase.
use mathlib.Core.Path.{subst}
use fraud_detection_lite.Prelude.{
  ℕ, zero, suc, ◌-◌, ◌≡◌, refl, sym, ap, ◌∙◌, String, List, [], ◌∷◌, Option, none, some, inl, inr,
  Bool-cases, ◌==◌, ◌⊎◌, arith, false,
}
use fraud_detection_lite.Specs.Error.{Error, Result, ok, err}
use fraud_detection_lite.Startup.Database.{Pgx}
use fraud_detection_lite.Startup.{
  Effect, logged, open_database, open_redis, close_database, close_redis, sync_logger, Phase,
  serving, draining, shutting_down, returned, exited, crashed, Process, perform, closing,
  make_deferred, job_ended, leave,
}

-- The resources that were opened, as the calls that close them, and the calls that were made, the
-- latest first.
abbrev pub opened_of : List Effect → List Effect
opened_of [] = []
opened_of (logged text ∷ es) = opened_of es
opened_of (open_database ∷ es) = close_database ∷ opened_of es
opened_of (open_redis ∷ es) = close_redis ∷ opened_of es
opened_of (close_database ∷ es) = opened_of es
opened_of (close_redis ∷ es) = opened_of es
opened_of (sync_logger ∷ es) = opened_of es

abbrev pub closed_of : List Effect → List Effect
closed_of [] = []
closed_of (logged text ∷ es) = closed_of es
closed_of (open_database ∷ es) = closed_of es
closed_of (open_redis ∷ es) = closed_of es
closed_of (close_database ∷ es) = close_database ∷ closed_of es
closed_of (close_redis ∷ es) = close_redis ∷ closed_of es
closed_of (sync_logger ∷ es) = closed_of es

abbrev pub latest : List Effect → Option Effect
latest [] = none
latest (e ∷ es) = some e

-- Both resources are open, and the calls that close them are due.
pub record IsOpen (p : Process) : Type 0 where
  pub due :
      p.deferred
      ≡ close_redis ∷ close_database ∷ logged "Shutting Down Server..." ∷ sync_logger ∷ []
  pub opened : opened_of p.effects ≡ close_redis ∷ close_database ∷ []
  pub closed : closed_of p.effects ≡ []

-- The deferred db.Close waits for a connection: Redis is closed, the pool is not, and no job runs.
pub record IsBlocked (p : Process) : Type 0 where
  pub due : p.deferred ≡ close_database ∷ logged "Shutting Down Server..." ∷ sync_logger ∷ []
  pub opened : opened_of p.effects ≡ close_redis ∷ close_database ∷ []
  pub closed : closed_of p.effects ≡ close_redis ∷ []
  pub jobs : p.jobs ≡ 0
  pub held : (p.connections == 0) ≡ false

-- NewWithConfig gave a pool for the text, and the pool did not answer the ping.
pub record PingFails {Settings Pool : Type 0} (pgx : Pgx Settings Pool) (db_uri : String)
    : Type 0 where
  pub settings : Settings
  pub parsed : pgx.parse_config db_uri ≡ ok settings
  pub pool : Pool
  pub created : pgx.new_with_config settings ≡ ok pool
  pub error : Error
  pub failed : pgx.ping pool ≡ err error

-- What was opened, both resources or none, is closed once, Redis before the database, the logger is
-- written out last, and no job runs. Only a pool that leaks stays open.
pub record IsReleased (leaks : Type 0) (p : Process) : Type 0 where
  pub released :
      (leaks × (opened_of p.effects ≡ close_database ∷ []) × (closed_of p.effects ≡ []))
      ⊎ ((opened_of p.effects ≡ []) × (closed_of p.effects ≡ []))
      ⊎ ((opened_of p.effects ≡ close_redis ∷ close_database ∷ [])
          × (closed_of p.effects ≡ close_database ∷ close_redis ∷ []))
  pub synced : latest p.effects ≡ some sync_logger
  pub jobs : p.jobs ≡ 0

-- What holds in each phase.
abbrev pub IsIn : Type 0 → Phase → Process → Type 0
IsIn leaks serving p = IsOpen p
IsIn leaks draining p = IsOpen p
IsIn leaks shutting_down p = IsOpen p × (p.jobs ≡ 0)
IsIn leaks closing p = IsBlocked p
IsIn leaks returned p = IsReleased leaks p
IsIn leaks exited p =
    (opened_of p.effects ≡ close_redis ∷ close_database ∷ []) × (closed_of p.effects ≡ [])
IsIn leaks crashed p = IsReleased leaks p

abbrev pub Holds : Type 0 → Process → Type 0
Holds leaks p = (phase : Phase) × (p.phase ≡ phase) × IsIn leaks phase p

pub IsOpen-after :
    (p q : Process)
    → IsOpen p
    → q.deferred ≡ p.deferred
    → opened_of q.effects ≡ opened_of p.effects
    → closed_of q.effects ≡ closed_of p.effects
    → IsOpen q
IsOpen-after p q h d o c = record { due = d ∙ h.due; opened = o ∙ h.opened; closed = c ∙ h.closed }

pub job_ended-IsOpen :
    (n : ℕ) (r : Result (Unit {0})) (p : Process) → IsOpen p → IsOpen (job_ended n r p)
job_ended-IsOpen zero r p h = h
job_ended-IsOpen (suc n) r p h = IsOpen-after p _ h refl refl refl

pub job_ended-phase :
    (n : ℕ) (r : Result (Unit {0})) (p : Process) → (job_ended n r p).phase ≡ p.phase
job_ended-phase zero r p = refl
job_ended-phase (suc n) r p = refl

pub job_ended-jobs :
    (n : ℕ) (r : Result (Unit {0})) (p : Process) → p.jobs ≡ n → (job_ended n r p).jobs ≡ n - 1
job_ended-jobs zero r p e = e
job_ended-jobs (suc n) r p e = omega arith

-- The deferred calls from the closing of the pool on.
pub close-Holds :
    {leaks : Type 0} (p : Process)
    → opened_of p.effects ≡ close_redis ∷ close_database ∷ []
    → closed_of p.effects ≡ close_redis ∷ []
    → p.jobs ≡ 0
    → Holds leaks (
        make_deferred returned
          (close_database ∷ logged "Shutting Down Server..." ∷ sync_logger ∷ [])
          p)
close-Holds p o c k = elim (Bool-cases (p.connections == 0)) [
  | inl free ↦ rw free (
    returned,
    refl,
    record { released = inr (inr (o, ap (λ es. close_database ∷ es) c)); synced = refl; jobs = k },
  )
  | inr held ↦
      rw held (closing, refl, record { due = refl; opened = o; closed = c; jobs = k; held = held })
]

-- The deferred calls of an open process.
pub leave-Holds :
    {leaks : Type 0} (p : Process) → IsOpen p → p.jobs ≡ 0 → Holds leaks (leave returned p)
leave-Holds {leaks} p h k =
    subst (λ es. Holds leaks (make_deferred returned es p)) (sym h.due)
      (close-Holds (perform close_redis p) h.opened (ap (λ es. close_redis ∷ es) h.closed) k)
