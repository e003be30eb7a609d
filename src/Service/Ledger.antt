-- ===== src/Service/Ledger.antt =====
-- What the services need of the database and the clock: the inserted transactions form a log, which
-- one query extends and everything else leaves alone.
use fraud_detection_lite.Prelude.{
  ℕ, ◌+◌, ◌≡◌, ◌≢◌, ◌∙◌, sym, refl, ap, List, [], ◌∷◌, ◌++◌, length, length-append, arith,
}
use mathlib.Core.List.{append-nil, append_assoc}
use fraud_detection_lite.Prelude.Int.{ℤ, pos}
use fraud_detection_lite.Float.Ops.{is_finite}
use fraud_detection_lite.Float.Literals.{lit_mono, lt-lit, from_ℤ-finite, from_ℤ-pos}
use fraud_detection_lite.Specs.Error.{Result, ok, err}
use fraud_detection_lite.Repository.Models.{block}
use fraud_detection_lite.Repository.Queries.{
  Queries, CreateTransactionParams, CreateTransactionRow, CountRecentTransactionsParams,
}
use fraud_detection_lite.Risk.Amount.{HasSaneAmounts}
use fraud_detection_lite.Service.Environment.{Environment}
use fraud_detection_lite.Service.Transaction.{domain_profile, empty_row}

abbrev pub Log : Type 0
Log = List CreateTransactionParams

-- An INSERT that succeeds adds its row, and one that fails adds nothing.
abbrev pub logged : Result CreateTransactionRow → CreateTransactionParams → Log → Log
logged (ok row) p l = l ++ p ∷ []
logged (err e) p l = l

pub record Ledger {S : Type 0} (env : Environment S) (queries : Queries S) : Type 0 where
  pub log : S → Log
  pub now_keeps : (s : S) → log (env.now s).1 ≡ log s
  pub profile_keeps : (u : ℤ) (s : S) → log (queries.get_user_profile_by_user_id u s).1 ≡ log s
  pub count_keeps :
      (c : CountRecentTransactionsParams) (s : S)
      → log (queries.count_recent_transactions c s).1 ≡ log s
  pub recalculate_keeps : (u : ℤ) (s : S) → log (queries.recalculate_user_profile u s).1 ≡ log s
  pub create_logs :
      (p : CreateTransactionParams) (s : S)
      → log (queries.create_transaction p s).1 ≡ logged (queries.create_transaction p s).0 p (log s)

-- The empty profile has sane amounts.
pub empty_row-HasSaneAmounts : (u : ℤ) → HasSaneAmounts (domain_profile (empty_row u))
unfolding domain_profile
empty_row-HasSaneAmounts u = record {
  average_finite = ap is_finite (sym (from_ℤ-pos 0)) ∙ from_ℤ-finite (pos 0) (omega arith);
  maximum_nonneg = lit_mono (omega arith);
  maximum_fits = lt-lit 0 2147483648 (omega arith) (omega arith);
  deviation_fits = omega arith;
}

-- The rows of one user that block nothing.
pub record IsUnblocked (user_id : ℤ) (p : CreateTransactionParams) : Type 0 where
  pub owner : p.user_id ≡ user_id
  pub unblocked : p.decision ≢ block

abbrev pub AllUnblocked : ℤ → Log → Type 0
AllUnblocked user_id [] = Unit
AllUnblocked user_id (row ∷ log) = IsUnblocked user_id row × AllUnblocked user_id log

AllUnblocked-append :
    (user_id : ℤ) (first second : Log)
    → AllUnblocked user_id first
    → AllUnblocked user_id second
    → AllUnblocked user_id (first ++ second)
AllUnblocked-append user_id [] second h k = k
AllUnblocked-append user_id (row ∷ first) second (free, h) k =
    (free, AllUnblocked-append user_id first second h k)

-- The log grows by n unblocked rows of the user.
abbrev pub Grows : ℤ → Log → Log → ℕ → Type 0
Grows u before after n =
    (added : Log) × (after ≡ before ++ added) × (length added ≡ n) × AllUnblocked u added

pub Grows-none : (u : ℤ) (a : Log) {b : Log} → b ≡ a → Grows u a b 0
Grows-none u a e = ([], e ∙ sym (append-nil a), refl, tt)

pub Grows-one :
    (u : ℤ) (a : Log) {b : Log} (p : CreateTransactionParams)
    → b ≡ a ++ p ∷ []
    → IsUnblocked u p
    → Grows u a b 1
Grows-one u a p e h = (p ∷ [], e, refl, (h, tt))

pub Grows-trans :
    (u : ℤ) (a : Log) {b c : Log} {m n : ℕ} → Grows u a b m → Grows u b c n → Grows u a c (m + n)
Grows-trans u a (xs, e, l, h) (ys, f, k, g) = (
  xs ++ ys,
  f ∙ ap (λ t. t ++ ys) e ∙ append_assoc a xs ys,
  length-append xs ys ∙ omega (arith, l, k),
  AllUnblocked-append u xs ys h g,
)
