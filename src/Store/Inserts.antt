-- ===== src/Store/Inserts.antt =====
-- What the statements that insert do to the tables.
use fraud_detection_lite.Prelude.{
  ℕ, suc, ◌<◌, ◌^◌, ◌≡◌, refl, Bool, true, false, not, ◌||◌, arith, [], ◌∷◌, ◌++◌, leb,
  if◌then◌else◌,
}
use fraud_detection_lite.Specs.Error.{Error, Result, ok, err, other}
use fraud_detection_lite.Repository.Models.{User}
use fraud_detection_lite.Repository.Queries.{
  CreateTransactionParams, CreateTransactionRow, CreateUserParams,
}
use fraud_detection_lite.Store.Tables.{World, is_mode}
use fraud_detection_lite.Store.Transactions.{
  all_factors, has_user, new_transaction, returned_row, create_transaction,
}
use fraud_detection_lite.Store.Users.{has_email, new_user, too_long, create_user}

-- What a row of transactions satisfies when it is inserted.
pub record IsInsertable (p : CreateTransactionParams) (w : World) : Type 0 where
  pub mode : is_mode p.mode ≡ true
  pub factors : all_factors p.column5 ≡ true
  pub room : w.next_transaction_id < 2147483648
  pub timed : p.created_at.valid ≡ true
  pub owned : has_user p.user_id w.users ≡ true

abbrev pub draw_transaction : World → World
draw_transaction w = record w { next_transaction_id = suc w.next_transaction_id }

abbrev pub with_transaction : CreateTransactionParams → World → World
with_transaction p w = record w {
  next_transaction_id = suc w.next_transaction_id;
  transactions = w.transactions ++ new_transaction p w ∷ [];
}

-- The outcomes of CreateTransaction.
pub data TransactionInsert (p : CreateTransactionParams) (w : World)
    : Result CreateTransactionRow → World → Type 0 where
  inserted :
      IsInsertable p w
      → TransactionInsert p w (ok (returned_row (new_transaction p w))) (with_transaction p w)
  refused : (e : Error) → TransactionInsert p w (err e) w
  drawn : (e : Error) → TransactionInsert p w (err e) (draw_transaction w)

insert_cases :
    (p : CreateTransactionParams) (w : World) (mode factors full timed owned : Bool)
    → (mode ≡ true → factors ≡ true → full ≡ false → timed ≡ true → owned ≡ true → IsInsertable p w)
    → let made : Result CreateTransactionRow × World =
        if not mode
        then (err (other "invalid input value for enum mode"), w)
        else if not factors
        then (err (other "invalid input value for enum trigger_factors"), w)
        else if full
        then (err (other "nextval: reached maximum value of sequence"), w)
        else if not timed
        then (err (other "violates not-null constraint"), draw_transaction w)
        else if not owned
        then (err (other "violates foreign key constraint"), draw_transaction w)
        else (ok (returned_row (new_transaction p w)), with_transaction p w) in
      TransactionInsert p w made.0 made.1
insert_cases p w false factors full timed owned h = refused _
insert_cases p w true false full timed owned h = refused _
insert_cases p w true true true timed owned h = refused _
insert_cases p w true true false false owned h = drawn _
insert_cases p w true true false true false h = drawn _
insert_cases p w true true false true true h = inserted (h refl refl refl refl refl)

pub create_transaction-TransactionInsert :
    (p : CreateTransactionParams) (w : World)
    → let (made, w') = create_transaction p w in TransactionInsert p w made w'
unfolding create_transaction
create_transaction-TransactionInsert p w =
    insert_cases p w (is_mode p.mode) (all_factors p.column5) (leb (2 ^ 31) w.next_transaction_id)
      p.created_at.valid (has_user p.user_id w.users)
      (λ m f r t o. record {
        mode = m;
        factors = f;
        room = room w.next_transaction_id r;
        timed = t;
        owned = o;
      })
  where
    room : (n : ℕ) → leb (2 ^ 31) n ≡ false → n < 2147483648
    room n h = ground arith

abbrev pub draw_user : World → World
draw_user w = record w { next_user_id = suc w.next_user_id }

abbrev pub with_user : CreateUserParams → World → World
with_user p w = record w { next_user_id = suc w.next_user_id; users = w.users ++ new_user p w ∷ [] }

-- The outcomes of CreateUser.
pub data UserInsert (p : CreateUserParams) (w : World) : Result User → World → Type 0 where
  inserted : has_email p.email w.users ≡ false → UserInsert p w (ok (new_user p w)) (with_user p w)
  refused : (e : Error) → UserInsert p w (err e) w
  drawn : (e : Error) → UserInsert p w (err e) (draw_user w)

user_cases :
    (p : CreateUserParams) (w : World) (full long taken : Bool)
    → (taken ≡ false → has_email p.email w.users ≡ false)
    → let made : Result User × World =
        if full
        then (err (other "nextval: reached maximum value of sequence"), w)
        else if long
        then (err (other "value too long for type character varying(255)"), draw_user w)
        else if taken
        then (err (other "duplicate key value violates unique constraint"), draw_user w)
        else (ok (new_user p w), with_user p w) in
      UserInsert p w made.0 made.1
user_cases p w true long taken h = UserInsert.refused _
user_cases p w false true taken h = UserInsert.drawn _
user_cases p w false false true h = UserInsert.drawn _
user_cases p w false false false h = UserInsert.inserted (h refl)

pub create_user-UserInsert :
    (p : CreateUserParams) (w : World) → let (made, w') = create_user p w in UserInsert p w made w'
unfolding create_user
create_user-UserInsert p w =
    user_cases p w (leb (2 ^ 31) w.next_user_id)
      (too_long p.name || too_long p.email || too_long p.hashed_pass) (has_email p.email w.users)
      (λ h. h)
