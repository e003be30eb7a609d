-- ===== src/Store/Tables.antt =====
-- internal/db/migrations/001_initial.sql: the tables, and what the statements use of PostgreSQL.
use fraud_detection_lite.Prelude.{
  ℕ, zero, suc, ◌/◌, ◌^◌, String, Bool, true, false, ◌||◌, Option, none, some, List, [], ◌∷◌, ltb,
  str_eq, if◌then◌else◌,
}
use fraud_detection_lite.Prelude.Int.{ℤ, pos, negsuc}
use fraud_detection_lite.Float.Round.{nearest_even}
use fraud_detection_lite.Float.Ops.{Float64, nan, inf, fin, one_units, max_float}
use fraud_detection_lite.Constants.{lit}
use fraud_detection_lite.Time.{Time}
use fraud_detection_lite.Specs.Error.{Error, Result, ok, err, other}
use fraud_detection_lite.Repository.Models.{Transaction, User}
use fraud_detection_lite.Repository.Queries.{GetUserProfileByUserIdRow}

-- The rows of the tables in the order of their insertion, each time as it was written, the next values
-- of the two sequences, the time of NOW(), and the keys that Redis holds.
pub record World : Type 0 where
  pub users : List User
  pub transactions : List Transaction
  pub profiles : List GetUserProfileByUserIdRow
  pub next_user_id : ℕ
  pub next_transaction_id : ℕ
  pub clock : Time
  pub redis : List String

-- What the statements leave to PostgreSQL: AVG and STDDEV of the values that are not NULL, the order
-- of rows with the same time under ORDER BY created_at DESC, and the wall clock, in seconds, of a
-- TIMESTAMP.
pub record Engine : Type 0 where
  pub average : List Float64 → Option Float64
  pub deviation : List Float64 → Option Float64
  pub newest_first : List Transaction → List Transaction
  pub wall : Time → ℕ

-- CREATE TYPE mode AS ENUM
abbrev pub is_mode : String → Bool
is_mode m = str_eq m "UPI" || str_eq m "CARD" || str_eq m "NETBANKING"

-- CREATE TYPE trigger_factors AS ENUM
abbrev pub is_trigger_factor : String → Bool
is_trigger_factor f =
    str_eq f "AMOUNT_DEVIATION"
    || str_eq f "FREQUENCY_SPIKE"
    || str_eq f "NEW_MODE"
    || str_eq f "TIME_ANOMALY"

abbrev pub out_of_range : Error
out_of_range = other "integer out of range"

abbrev pub no_rows : Error
no_rows = other "no rows in result set"

-- A value of an INTEGER column.
abbrev pub in_integer : ℕ → Bool → Result ℤ
in_integer n false = if ltb n (2 ^ 31) then ok (pos n) else err out_of_range
in_integer zero true = ok (pos 0)
in_integer (suc n) true = if ltb n (2 ^ 31) then ok (negsuc n) else err out_of_range

-- The cast of a DOUBLE PRECISION to INTEGER: to the nearest, ties to even, or an error.
unfoldable pub cast_integer : Float64 → Result ℤ
cast_integer nan = err out_of_range
cast_integer (inf s) = err out_of_range
cast_integer (fin s a) = in_integer (nearest_even a one_units) s

-- COALESCE(x, 0)
abbrev pub or_zero : Option Float64 → Float64
or_zero (some x) = x
or_zero none = lit 0

-- MAX of a column, where NaN is the greatest value.
abbrev pub or_larger : Float64 → Option Float64 → Float64
or_larger x none = x
or_larger x (some y) = max_float x y

unfoldable pub largest : List Float64 → Option Float64
largest [] = none
largest (x ∷ xs) = some (or_larger x (largest xs))

-- The start of the day of a wall clock, for CURRENT_DATE.
abbrev pub day : ℕ → ℕ
day wall = wall / 86400
