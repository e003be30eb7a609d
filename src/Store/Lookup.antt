-- ===== src/Store/Lookup.antt =====
-- A transaction that was created is found by its identifier.
use mathlib.Core.Path.{subst}
use fraud_detection_lite.Prelude.{
  ℕ, ◌<◌, ◌≡◌, refl, ap, arith, Bool, true, false, ◌&&◌, List, [], ◌∷◌, ◌++◌, first_of, some,
}
use fraud_detection_lite.Prelude.Int.{ℤ, pos, eqb_ℤ}
use fraud_detection_lite.Specs.Error.{Result, ok}
use fraud_detection_lite.Repository.Models.{Transaction}
use fraud_detection_lite.Repository.Queries.{CreateTransactionParams, CreateTransactionRow}
use fraud_detection_lite.Store.Tables.{World}
use fraud_detection_lite.Store.Transactions.{
  new_transaction, returned_row, create_transaction, or_no_rows, get_transaction_by_txn_id,
}
use fraud_detection_lite.Store.Inserts.{
  TransactionInsert, inserted, refused, drawn, create_transaction-TransactionInsert,
}
use fraud_detection_lite.Store.Invariant.{Numbered, IsConsistent}

abbrev is_wanted : ℤ → ℤ → Transaction → Bool
is_wanted n u t = eqb_ℤ t.id n && eqb_ℤ t.user_id u

eqb_refl : (a : ℤ) → eqb_ℤ a a ≡ true
eqb_refl a = ground arith

first_of-append_one :
    (n : ℕ) (ts : List Transaction) (t : Transaction)
    → t.id ≡ pos n
    → Numbered n ts
    → first_of (is_wanted t.id t.user_id) (ts ++ t ∷ []) ≡ some t
first_of-append_one n [] t d h = rw (eqb_refl t.id, eqb_refl t.user_id) refl
first_of-append_one n (x ∷ ts) t d ((k, e, l), after, h) =
    rw (ap (λ i. eqb_ℤ i t.id) e, ap (λ i. eqb_ℤ (pos k) i) d, apart k n l)
      (first_of-append_one n ts t d h)
  where
    apart : (a b : ℕ) → a < b → eqb_ℤ (pos a) (pos b) ≡ false
    apart a b l = ground arith

insert_found :
    (p : CreateTransactionParams) (w : World) (made : Result CreateTransactionRow) (w' : World)
    (row : CreateTransactionRow)
    → TransactionInsert p w made w'
    → Numbered w.next_transaction_id w.transactions
    → made ≡ ok row
    → (t : Transaction) × (row ≡ returned_row t)
      × (t ≡ new_transaction p w)
      × (get_transaction_by_txn_id (record { id = row.id; user_id = p.user_id }) w' ≡ (ok t, w'))
unfolding get_transaction_by_txn_id
insert_found p w made w' row (inserted i) h e =
    subst
      (λ (r : CreateTransactionRow).
        (t : Transaction) × (r ≡ returned_row t)
        × (t ≡ new_transaction p w)
        × (get_transaction_by_txn_id (record { id = r.id; user_id = p.user_id }) w' ≡ (ok t, w')))
      (row_path e)
      (
        new_transaction p w,
        refl,
        refl,
        ap (λ found. (or_no_rows found, w'))
            (first_of-append_one w.next_transaction_id w.transactions (new_transaction p w) refl h),
      )
  where
    row_path : {x y : CreateTransactionRow} → ok x ≡ ok y → x ≡ y
    row_path q = cc
insert_found p w made w' row (refused f) h e = cc
insert_found p w made w' row (drawn f) h e = cc

-- In consistent tables, where CreateTransaction succeeds, GetTransactionByTxnID with the identifier of
-- its answer and with the user finds the new row, which has the fields that the answer returns.
pub create_transaction-found :
    (p : CreateTransactionParams) (w : World) (row : CreateTransactionRow)
    → IsConsistent w
    → (create_transaction p w).0 ≡ ok row
    → (t : Transaction) × (row ≡ returned_row t)
      × (t ≡ new_transaction p w)
      × (get_transaction_by_txn_id
            (record { id = row.id; user_id = p.user_id })
            (create_transaction p w).1
          ≡ (ok t, (create_transaction p w).1))
create_transaction-found p w row h e =
    insert_found p w _ _ row (create_transaction-TransactionInsert p w) h.1 e
