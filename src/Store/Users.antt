-- ===== src/Store/Users.antt =====
-- internal/repository/users.sql.go: the statements on users.
use fraud_detection_lite.Prelude.{
  suc, ◌^◌, Bool, true, false, ◌||◌, List, [], ◌∷◌, ◌++◌, first_of, leb, ltb, str_eq, if◌then◌else◌,
  String,
}
use Prim.Native.String.{count}
use fraud_detection_lite.Prelude.Int.{ℤ, pos, eqb_ℤ}
use fraud_detection_lite.Specs.Error.{Result, ok, err, other}
use fraud_detection_lite.Repository.Models.{User}
use fraud_detection_lite.Repository.Queries.{CreateUserParams}
use fraud_detection_lite.Store.Tables.{World}
use fraud_detection_lite.Store.Transactions.{or_no_rows}

abbrev pub has_email : String → List User → Bool
has_email email [] = false
has_email email (u ∷ us) = if str_eq u.email email then true else has_email email us

abbrev pub new_user : CreateUserParams → World → User
new_user p w = record {
  id = pos w.next_user_id;
  name = p.name;
  email = p.email;
  hashed_pass = p.hashed_pass;
  created_at = record { time = w.clock; valid = true };
  updated_at = record { time = w.clock; valid = true };
}

-- VARCHAR(255)
abbrev pub too_long : String → Bool
too_long s = ltb 255 (count s)

-- CreateUser: the sequence is not at its end, the texts fit, and the address is new; a user that fails
-- for the texts or for the address has drawn a number.
unfoldable pub create_user : CreateUserParams → World → Result User × World
create_user p w =
    let drawn = record w { next_user_id = suc w.next_user_id } in
    let u = new_user p w in
    if leb (2 ^ 31) w.next_user_id
    then (err (other "nextval: reached maximum value of sequence"), w)
    else if too_long p.name || too_long p.email || too_long p.hashed_pass
    then (err (other "value too long for type character varying(255)"), drawn)
    else if has_email p.email w.users
    then (err (other "duplicate key value violates unique constraint"), drawn)
    else (ok u, record drawn { users = w.users ++ u ∷ [] })

-- GetUserByEmail
unfoldable pub get_user_by_email : String → World → Result User × World
get_user_by_email email w = (or_no_rows (first_of (λ (u : User). str_eq u.email email) w.users), w)

-- GetUserByID, which nothing runs.
unfoldable pub get_user_by_id : ℤ → World → Result User × World
get_user_by_id id w = (or_no_rows (first_of (λ (u : User). eqb_ℤ u.id id) w.users), w)
