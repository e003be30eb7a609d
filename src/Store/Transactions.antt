-- ===== src/Store/Transactions.antt =====
-- internal/repository/transactions.sql.go: the statements on transactions.
use fraud_detection_lite.Prelude.{
  ℕ, suc, ◌+◌, ◌*◌, ◌^◌, Bool, true, false, not, ◌&&◌, Option, none, some, List, [], ◌∷◌, ◌++◌,
  keep, first_of, take, drop, ltb, leb, if◌then◌else◌, String,
}
use fraud_detection_lite.Prelude.Int.{ℤ, pos, negsuc, eqb_ℤ}
use fraud_detection_lite.Float.Ops.{Float64, nan, inf, fin, one_units}
use fraud_detection_lite.Specs.Error.{Result, ok, err, other}
use fraud_detection_lite.Repository.Models.{Transaction, User}
use fraud_detection_lite.Repository.Queries.{
  CountRecentTransactionsParams, CreateTransactionParams, CreateTransactionRow,
  GetAllTransactionsByUserIdParams, GetTransactionByTxnIdParams,
}
use fraud_detection_lite.Store.Tables.{
  World, Engine, is_mode, is_trigger_factor, out_of_range, no_rows,
}

abbrev pub all_factors : List String → Bool
all_factors [] = true
all_factors (f ∷ fs) = is_trigger_factor f && all_factors fs

-- WHERE user_id = u
abbrev pub of_user : ℤ → List Transaction → List Transaction
of_user u ts = keep (λ (t : Transaction). eqb_ℤ t.user_id u) ts

abbrev pub has_user : ℤ → List User → Bool
has_user u [] = false
has_user u (user ∷ users) = if eqb_ℤ user.id u then true else has_user u users

-- created_at > NOW() - make_interval(secs => s)
unfoldable pub is_within : Float64 → ℕ → ℕ → Result Bool
is_within nan now created = err out_of_range
is_within (inf s) now created = err out_of_range
is_within (fin false a) now created = ok (ltb (now * one_units) (created * one_units + a))
is_within (fin true a) now created = ok (ltb (now * one_units + a) (created * one_units))

-- The count of the rows that pass, if the test gives a value for each.
abbrev pub counted : Bool → Result ℤ → Result ℤ
counted true (ok (pos n)) = ok (pos (suc n))
counted b n = n

-- The new row of transactions.
abbrev pub new_transaction : CreateTransactionParams → World → Transaction
new_transaction p w = record {
  id = pos w.next_transaction_id;
  user_id = p.user_id;
  amount = p.amount;
  mode = p.mode;
  risk_score = p.risk_score;
  triggered_factors = p.column5;
  decision = p.decision;
  amount_deviation_score = p.amount_deviation_score;
  frequency_deviation_score = p.frequency_deviation_score;
  mode_deviation_score = p.mode_deviation_score;
  time_deviation_score = p.time_deviation_score;
  created_at = p.created_at;
  updated_at = record { time = w.clock; valid = true };
}

-- RETURNING
abbrev pub returned_row : Transaction → CreateTransactionRow
returned_row t = record {
  id = t.id;
  user_id = t.user_id;
  amount = t.amount;
  mode = t.mode;
  risk_score = t.risk_score;
  triggered_factors = t.triggered_factors;
  decision = t.decision;
  created_at = t.created_at;
  updated_at = t.updated_at;
}

-- CreateTransaction: the values are of the columns' types, the sequence is not at its end, and the
-- user exists; a row that fails only for its time or its user has drawn its number.
unfoldable pub create_transaction :
    CreateTransactionParams → World → Result CreateTransactionRow × World
create_transaction p w =
    let t = new_transaction p w in
    let drawn = record w { next_transaction_id = suc w.next_transaction_id } in
    if not (is_mode p.mode)
    then (err (other "invalid input value for enum mode"), w)
    else if not (all_factors p.column5)
    then (err (other "invalid input value for enum trigger_factors"), w)
    else if leb (2 ^ 31) w.next_transaction_id
    then (err (other "nextval: reached maximum value of sequence"), w)
    else if not p.created_at.valid
    then (err (other "violates not-null constraint"), drawn)
    else if not (has_user p.user_id w.users)
    then (err (other "violates foreign key constraint"), drawn)
    else (ok (returned_row t), record drawn { transactions = w.transactions ++ t ∷ [] })

module _ (engine : Engine) where
  unfoldable pub count_within : Float64 → ℕ → List Transaction → Result ℤ
  unfolding is_within
  count_within secs now [] = ok (pos 0)
  count_within secs now (t ∷ ts) =
      let later = count_within secs now ts in
      elim (is_within secs now (engine.wall t.created_at.time)) [
        | ok recent ↦ counted recent later
        | err e ↦ err e
      ]

  -- CountRecentTransactions
  unfoldable pub count_recent_transactions :
      CountRecentTransactionsParams → World → Result ℤ × World
  unfolding count_within
  count_recent_transactions p w =
      (count_within p.secs (engine.wall w.clock) (of_user p.user_id w.transactions), w)

  -- LIMIT n OFFSET m, of numbers that are not negative.
  abbrev pub page : ℤ → ℤ → List Transaction → Result (List Transaction)
  page (pos n) (pos m) ts = ok (take n (drop m ts))
  page (negsuc n) m ts = err (other "LIMIT must not be negative")
  page n (negsuc m) ts = err (other "OFFSET must not be negative")

  -- GetAllTransactionsByUserID
  unfoldable pub get_all_transactions_by_user_id :
      GetAllTransactionsByUserIdParams → World → Result (List Transaction) × World
  get_all_transactions_by_user_id p w =
      (page p.limit p.offset (engine.newest_first (of_user p.user_id w.transactions)), w)

abbrev pub or_no_rows {ℓ} : {A : Type ℓ} → Option A → Result A
or_no_rows (some a) = ok a
or_no_rows none = err no_rows

-- GetTransactionByTxnID
unfoldable pub get_transaction_by_txn_id :
    GetTransactionByTxnIdParams → World → Result Transaction × World
get_transaction_by_txn_id p w = (
  or_no_rows
      (first_of (λ (t : Transaction). eqb_ℤ t.id p.id && eqb_ℤ t.user_id p.user_id) w.transactions),
  w,
)
