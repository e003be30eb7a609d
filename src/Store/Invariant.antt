-- ===== src/Store/Invariant.antt =====
-- What is true of the tables at all times, and that the inserts keep it.
use fraud_detection_lite.Prelude.{
  ℕ, suc, ◌<◌, ◌≡◌, ◌∙◌, refl, sym, ap, true, false, Bool-cases, inl, inr, arith, List, [], ◌∷◌,
  ◌++◌, Every, Every-append_one, Every-mono, str_eq, if◌then◌else◌,
}
use fraud_detection_lite.Prelude.Int.{ℤ, pos, ltb_ℤ, eqb_ℤ, ◌≤ℤ◌}
use fraud_detection_lite.Specs.Error.{Result}
use fraud_detection_lite.Repository.Models.{Transaction, User}
use fraud_detection_lite.Repository.Queries.{
  CreateTransactionParams, CreateTransactionRow, CreateUserParams, GetUserProfileByUserIdRow,
}
use fraud_detection_lite.Store.Tables.{World, is_mode}
use fraud_detection_lite.Store.Transactions.{
  all_factors, has_user, new_transaction, create_transaction,
}
use fraud_detection_lite.Store.Users.{has_email, new_user, create_user}
use fraud_detection_lite.Store.Inserts.{
  TransactionInsert, inserted, refused, drawn, create_transaction-TransactionInsert, UserInsert,
  create_user-UserInsert,
}

-- The identifiers are below n and ascend.
abbrev pub Numbered : ℕ → List Transaction → Type 0
Numbered n [] = Unit
Numbered n (t ∷ ts) =
    ((k : ℕ) × (t.id ≡ pos k) × (k < n))
    × Every (λ (u : Transaction). ltb_ℤ t.id u.id ≡ true) ts
    × Numbered n ts

-- No two users have the same address.
abbrev pub DistinctEmails : List User → Type 0
DistinctEmails [] = Unit
DistinctEmails (u ∷ us) =
    Every (λ (v : User). str_eq u.email v.email ≡ false) us × DistinctEmails us

-- The counts of a profile: none is negative, and no more transactions were allowed than there were.
abbrev pub CountsAgree : GetUserProfileByUserIdRow → Type 0
CountsAgree p = (pos 0 ≤ℤ p.allowed_transactions) × (p.allowed_transactions ≤ℤ p.total_transactions)

-- Every transaction is of a user that exists, and its mode and factors are of the enumerations.
abbrev pub IsOwned : List User → Transaction → Type 0
IsOwned users t =
    (has_user t.user_id users ≡ true)
    × (is_mode t.mode ≡ true)
    × (all_factors t.triggered_factors ≡ true)

-- A profile is of a user that exists, and its counts agree.
abbrev pub IsOwnedProfile : List User → GetUserProfileByUserIdRow → Type 0
IsOwnedProfile users p = CountsAgree p × (has_user p.user_id users ≡ true)

abbrev pub IsConsistent : World → Type 0
IsConsistent w =
    Every (IsOwned w.users) w.transactions
    × Numbered w.next_transaction_id w.transactions
    × DistinctEmails w.users
    × Every (IsOwnedProfile w.users) w.profiles

Numbered-suc : (n : ℕ) (ts : List Transaction) → Numbered n ts → Numbered (suc n) ts
Numbered-suc n [] h = tt
Numbered-suc n (t ∷ ts) ((k, e, l), after, h) = ((k, e, omega arith), after, Numbered-suc n ts h)

Numbered-append_one :
    (n : ℕ) (ts : List Transaction) (t : Transaction)
    → t.id ≡ pos n
    → Numbered n ts
    → Numbered (suc n) (ts ++ t ∷ [])
Numbered-append_one n [] t d h = ((n, d, omega arith), tt, tt)
Numbered-append_one n (u ∷ ts) t d ((k, e, l), after, h) = (
  (k, e, omega arith),
  Every-append_one (λ (v : Transaction). ltb_ℤ u.id v.id ≡ true) ts t after
      (ap (λ x. ltb_ℤ x t.id) e ∙ ap (λ y. ltb_ℤ (pos k) y) d ∙ below k n l),
  Numbered-append_one n ts t d h,
)
  where
    below : (a b : ℕ) → a < b → ltb_ℤ (pos a) (pos b) ≡ true
    below a b le = ground arith

has_user-append_one :
    (u : ℤ) (users : List User) (v : User)
    → has_user u users ≡ true
    → has_user u (users ++ v ∷ []) ≡ true
has_user-append_one u [] v h = cc
has_user-append_one u (x ∷ users) v h = elim (Bool-cases (eqb_ℤ x.id u)) [
  | inl same ↦ rw same refl
  | inr other ↦ rw other (
      has_user-append_one u users v
        (ap (λ b. if b then true else has_user u users) (sym other) ∙ h))
]

DistinctEmails-append_one :
    (users : List User) (v : User)
    → has_email v.email users ≡ false
    → DistinctEmails users
    → DistinctEmails (users ++ v ∷ [])
DistinctEmails-append_one [] v e h = (tt, tt)
DistinctEmails-append_one (x ∷ users) v e (apart, h) = elim (Bool-cases (str_eq x.email v.email)) [
  | inl same ↦ absurd (taken same)
  | inr other ↦ (
    Every-append_one (λ (u : User). str_eq x.email u.email ≡ false) users v apart other,
    DistinctEmails-append_one users v
        (ap (λ b. if b then true else has_email v.email users) (sym other) ∙ e) h,
  )
]
  where
    taken : str_eq x.email v.email ≡ true → ⊥
    taken same = true_false (ap (λ b. if b then true else has_email v.email users) (sym same) ∙ e)
      where
        true_false : true ≡ false → ⊥
        true_false p = cc

insert-IsConsistent :
    (p : CreateTransactionParams) (w : World) (made : Result CreateTransactionRow) (w' : World)
    → TransactionInsert p w made w'
    → IsConsistent w
    → IsConsistent w'
insert-IsConsistent p w made w' (inserted i) (owned, numbered, emails, counts) = (
  Every-append_one (IsOwned w.users) w.transactions (new_transaction p w) owned
      (i.owned, i.mode, i.factors),
  Numbered-append_one w.next_transaction_id w.transactions (new_transaction p w) refl numbered,
  emails,
  counts,
)
insert-IsConsistent p w made w' (refused e) h = h
insert-IsConsistent p w made w' (drawn e) (owned, numbered, emails, counts) =
    (owned, Numbered-suc w.next_transaction_id w.transactions numbered, emails, counts)

pub create_transaction-IsConsistent :
    (p : CreateTransactionParams) (w : World)
    → IsConsistent w
    → IsConsistent (create_transaction p w).1
create_transaction-IsConsistent p w h =
    insert-IsConsistent p w _ _ (create_transaction-TransactionInsert p w) h

user-IsConsistent :
    (p : CreateUserParams) (w : World) (made : Result User) (w' : World)
    → UserInsert p w made w'
    → IsConsistent w
    → IsConsistent w'
user-IsConsistent p w made w' (UserInsert.inserted e) (owned, numbered, emails, counts) = (
  Every-mono (IsOwned w.users) _ w.transactions
      (λ t o. (has_user-append_one t.user_id w.users (new_user p w) o.0, o.1, o.2)) owned,
  numbered,
  DistinctEmails-append_one w.users (new_user p w) e emails,
  Every-mono (IsOwnedProfile w.users) _ w.profiles
      (λ row o. (o.0, has_user-append_one row.user_id w.users (new_user p w) o.1)) counts,
)
user-IsConsistent p w made w' (UserInsert.refused e) h = h
user-IsConsistent p w made w' (UserInsert.drawn e) h = h

pub create_user-IsConsistent :
    (p : CreateUserParams) (w : World) → IsConsistent w → IsConsistent (create_user p w).1
create_user-IsConsistent p w h = user-IsConsistent p w _ _ (create_user-UserInsert p w) h
