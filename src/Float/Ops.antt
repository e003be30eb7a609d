-- ===== src/Float/Ops.antt =====
-- Go's float64: IEEE 754 binary64 with one rounding for each operation.
use fraud_detection_lite.Float.Round.{round_ratio}
use fraud_detection_lite.Prelude.{
  ℕ, zero, suc, ◌+◌, ◌-◌, ◌*◌, ◌/◌, ◌^◌, Bool, true, false, not, ◌&&◌, ◌||◌, ltb, ◌==◌,
  if◌then◌else◌,
}
use fraud_detection_lite.Prelude.Int.{ℤ, pos, negsuc}

-- The Bool is the sign, `true` for negative; a finite value is a number of units of 2^-1074, which
-- every finite binary64 value is a multiple of.
pub data Float64 : Type 0 where
  nan : Float64
  inf : Bool → Float64
  fin : Bool → ℕ → Float64

-- The units in 1.0.
abbrev pub one_units : ℕ
one_units = 2 ^ 1074

-- Each operation rounds a quotient below 2 ^ 3173 units.
abbrev pub round_fuel : ℕ
round_fuel = 3200

abbrev xor : Bool → Bool → Bool
xor true b = not b
xor false b = b

-- A magnitude of 2 ^ 1024 or more overflows to an infinity.
abbrev pub overflow_units : ℕ
overflow_units = 2 ^ 2098

abbrev is_zero : ℕ → Bool
is_zero zero = true
is_zero (suc n) = false

unfoldable pub pack : Bool → ℕ → Float64
pack s m = if ltb m overflow_units then fin s m else inf s

unfoldable pub rounded : Bool → ℕ → ℕ → Float64
unfolding pack round_ratio
rounded s p q = pack s (round_ratio round_fuel p q)

-- The constant n / d, with its sign.
unfoldable pub constant : Bool → ℕ → ℕ → Float64
unfolding rounded
constant s n d = rounded s (n * one_units) d

-- float64(x) of an integer.
unfoldable pub from_ℤ : ℤ → Float64
unfolding rounded
from_ℤ (pos n) = rounded false (n * one_units) 1
from_ℤ (negsuc n) = rounded true (suc n * one_units) 1

unfoldable pub neg : Float64 → Float64
neg nan = nan
neg (inf s) = inf (not s)
neg (fin s a) = fin (not s) a

-- Finite values of opposite sign: the larger magnitude gives the sign, and equal ones give +0.
unfoldable pub opposite : Bool → ℕ → ℕ → Float64
opposite s a b =
    if ltb b a
    then rounded s (a - b) 1
    else if ltb a b
    then rounded (not s) (b - a) 1
    else fin false 0

abbrev same : Bool → Bool → Bool
same s t = not (xor s t)

unfoldable pub add : Float64 → Float64 → Float64
add nan y = nan
add (inf s) nan = nan
add (inf s) (inf t) = if same s t then inf s else nan
add (inf s) (fin t b) = inf s
add (fin s a) nan = nan
add (fin s a) (inf t) = inf t
add (fin s a) (fin t b) = if same s t then rounded s (a + b) 1 else opposite s a b

unfoldable pub sub : Float64 → Float64 → Float64
unfolding add neg
sub x y = add x (neg y)

unfoldable pub mul : Float64 → Float64 → Float64
mul nan y = nan
mul (inf s) nan = nan
mul (inf s) (inf t) = inf (xor s t)
mul (inf s) (fin t b) = if is_zero b then nan else inf (xor s t)
mul (fin s a) nan = nan
mul (fin s a) (inf t) = if is_zero a then nan else inf (xor s t)
mul (fin s a) (fin t b) = rounded (xor s t) (a * b) one_units

-- A division by zero gives an infinity, and 0 / 0 is NaN; Go does not panic on floats.
unfoldable pub div : Float64 → Float64 → Float64
div nan y = nan
div (inf s) nan = nan
div (inf s) (inf t) = nan
div (inf s) (fin t b) = inf (xor s t)
div (fin s a) nan = nan
div (fin s a) (inf t) = fin (xor s t) 0
div (fin s a) (fin t b) =
    if is_zero b
    then (if is_zero a then nan else inf (xor s t))
    else rounded (xor s t) (a * one_units) b

-- x < y; false if either is NaN. The two zeros are equal.
unfoldable pub lt : Float64 → Float64 → Bool
lt nan y = false
lt (inf s) nan = false
lt (inf s) (inf t) = s && not t
lt (inf s) (fin t b) = s
lt (fin s a) nan = false
lt (fin s a) (inf t) = not t
lt (fin false a) (fin false b) = ltb a b
lt (fin false a) (fin true b) = false
lt (fin true a) (fin false b) = ltb 0 (a + b)
lt (fin true a) (fin true b) = ltb b a

-- x == y
unfoldable pub eq : Float64 → Float64 → Bool
eq nan y = false
eq (inf s) nan = false
eq (inf s) (inf t) = same s t
eq (inf s) (fin t b) = false
eq (fin s a) nan = false
eq (fin s a) (inf t) = false
eq (fin s a) (fin t b) = a == b && (same s t || is_zero a)

-- x <= y
unfoldable pub le : Float64 → Float64 → Bool
unfolding lt eq
le x y = lt x y || eq x y

abbrev pub is_nan : Float64 → Bool
is_nan nan = true
is_nan (inf s) = false
is_nan (fin s a) = false

abbrev pub is_finite : Float64 → Bool
is_finite nan = false
is_finite (inf s) = false
is_finite (fin s a) = true

abbrev is_negative : Float64 → Bool
is_negative nan = false
is_negative (inf s) = s
is_negative (fin s a) = s

-- The builtins min(x, y) and max(x, y): NaN if either is, and -0 below +0.
unfoldable pub min_float : Float64 → Float64 → Float64
unfolding lt
min_float x y =
    if is_nan x || is_nan y
    then nan
    else if lt x y
    then x
    else if lt y x
    then y
    else if is_negative x
    then x
    else y

unfoldable pub max_float : Float64 → Float64 → Float64
unfolding lt
max_float x y =
    if is_nan x || is_nan y
    then nan
    else if lt x y
    then y
    else if lt y x
    then x
    else if is_negative x
    then y
    else x

-- The integer part, if it is an int32. For any other value the language leaves the result of
-- int32(x) to the implementation, so `other` stands for it.
unfoldable pub to_int32 : (Float64 → ℤ) → Float64 → ℤ
to_int32 other nan = other nan
to_int32 other (inf s) = other (inf s)
to_int32 other (fin false a) =
    if ltb (a / one_units) (2 ^ 31) then pos (a / one_units) else other (fin false a)
to_int32 other (fin true a) =
    if a / one_units == 0
    then pos 0
    else if ltb (a / one_units) (2 ^ 31 + 1)
    then negsuc (a / one_units - 1)
    else other (fin true a)

-- What a test that runs these operations unfolds.
unfoldable pub evaluation : Unit {0}
unfolding rounded constant from_ℤ neg opposite add sub mul div lt eq le min_float max_float to_int32
evaluation = tt
