-- ===== src/Float/Literals.antt =====
-- The whole constants and the integers as float64 values: their order and their arithmetic.
use Prim.Native.Nat.{min}
use fraud_detection_lite.Float.Round.{round_ratio_exact}
use fraud_detection_lite.Float.Ops.{
  Float64, fin, one_units, overflow_units, round_fuel, pack, rounded, from_ℤ, constant, add, sub,
  mul, neg, lt, min_float, is_finite,
}
use fraud_detection_lite.Float.Order.{◌⊑◌, IsPositive, positive}
use fraud_detection_lite.Float.Monotone.{rounded_⊑, difference}
use fraud_detection_lite.Prelude.{
  ℕ, Bool, suc, ◌+◌, ◌-◌, ◌*◌, ◌≤◌, ◌<◌, ◌≡◌, refl, sym, ap, ◌∙◌, false, true, arith, lt→ltb, ltb,
}
use mathlib.Core.Path.{ap₂, subst}
use fraud_detection_lite.Prelude.Int.{ℤ, pos, negsuc, pos_part, neg_part, ◌≤ℤ◌}
use fraud_detection_lite.Constants.{lit}

-- A whole constant is the conversion of that integer.
pub from_ℤ-pos : (n : ℕ) → from_ℤ (pos n) ≡ lit n
unfolding from_ℤ lit constant
from_ℤ-pos n = refl

pub lit_mono : {m n : ℕ} → m ≤ n → lit m ⊑ lit n
unfolding lit constant
lit_mono {m} {n} h = rounded_⊑ (m * one_units) (n * one_units) 1 (omega arith) (omega arith)

pub from_ℤ_mono : (a b : ℤ) → pos 0 ≤ℤ a → a ≤ℤ b → from_ℤ a ⊑ from_ℤ b
unfolding from_ℤ
from_ℤ_mono (pos m) (pos n) h k =
    rounded_⊑ (m * one_units) (n * one_units) 1 (omega arith) (omega arith)
from_ℤ_mono (pos m) (negsuc n) h k = absurd (omega arith)
from_ℤ_mono (negsuc m) b h k = absurd (omega arith)

pack_small : (s : Bool) (m : ℕ) → m < overflow_units → pack s m ≡ fin s m
unfolding pack
pack_small s m h = rw (lt→ltb m overflow_units h)

-- A whole number below 2 ^ 53 is a float64 value.
pub rounded_exact :
    (s : Bool) (n q : ℕ)
    → 0 < q
    → n < 9007199254740992
    → rounded s (n * one_units * q) q ≡ fin s (n * one_units)
unfolding rounded
rounded_exact s n q hq h =
    ap (pack s) (round_ratio_exact round_fuel 1074 n q hq h (omega arith))
    ∙ pack_small s (n * one_units) (omega arith)

whole_units : (m k : ℕ) → m ≡ k → m ≡ k * 1
whole_units m k e = omega arith

rounded_whole :
    (s : Bool) (n m : ℕ)
    → m ≡ n * one_units
    → n < 9007199254740992
    → rounded s m 1 ≡ fin s (n * one_units)
rounded_whole s n m e h =
    ap (λ (t : ℕ). rounded s t 1) (whole_units m (n * one_units) e)
    ∙ rounded_exact s n 1 (omega arith) h

pub lit_lem : (n : ℕ) → n < 9007199254740992 → lit n ≡ fin false (n * one_units)
unfolding lit constant
lit_lem n h = rounded_whole false n (n * one_units) refl h

pub lit-IsPositive : (n : ℕ) → 0 < n → n < 9007199254740992 → IsPositive (lit n)
lit-IsPositive n p h = subst IsPositive (sym (lit_lem n h)) (positive (omega arith))

add_fin : (a b : ℕ) → add (fin false a) (fin false b) ≡ rounded false (a + b) 1
unfolding add
add_fin a b = refl

-- Sums, differences and products of whole constants are exact below 2 ^ 53.
pub add-lit : (a b : ℕ) → a + b < 9007199254740992 → add (lit a) (lit b) ≡ lit (a + b)
add-lit a b h =
    ap₂ add (lit_lem a (omega arith)) (lit_lem b (omega arith))
    ∙ add_fin (a * one_units) (b * one_units)
    ∙ rounded_whole false (a + b) (a * one_units + b * one_units) (omega arith) h
    ∙ sym (lit_lem (a + b) h)

sub_fin : (a b : ℕ) → b ≤ a → sub (fin false a) (fin false b) ≡ rounded false (a - b) 1
unfolding sub add neg
sub_fin a b h = difference a b h

pub sub-lit : (a b : ℕ) → b ≤ a → a < 9007199254740992 → sub (lit a) (lit b) ≡ lit (a - b)
sub-lit a b l h =
    ap₂ sub (lit_lem a h) (lit_lem b (omega arith))
    ∙ sub_fin (a * one_units) (b * one_units) (omega arith)
    ∙ rounded_whole false (a - b) (a * one_units - b * one_units) (omega arith) (omega arith)
    ∙ sym (lit_lem (a - b) (omega arith))

mul_fin : (a b : ℕ) → mul (fin false a) (fin false b) ≡ rounded false (a * b) one_units
unfolding mul
mul_fin a b = refl

scaled : (a b u : ℕ) → a * u * (b * u) ≡ a * b * u * u
scaled a b u = omega arith

pub mul-lit :
    (a b : ℕ)
    → a < 9007199254740992
    → b < 9007199254740992
    → a * b < 9007199254740992
    → mul (lit a) (lit b) ≡ lit (a * b)
mul-lit a b ha hb h =
    ap₂ mul (lit_lem a ha) (lit_lem b hb)
    ∙ mul_fin (a * one_units) (b * one_units)
    ∙ ap (λ (t : ℕ). rounded false t one_units) (scaled a b one_units)
    ∙ rounded_exact false (a * b) one_units (omega arith) h
    ∙ sym (lit_lem (a * b) h)

lt_fin : (a b : ℕ) → lt (fin false (a * one_units)) (fin false (b * one_units)) ≡ ltb a b
unfolding lt
lt_fin a b = ground arith

pub lt-lit : (a b : ℕ) → a < 9007199254740992 → b < 9007199254740992 → lt (lit a) (lit b) ≡ ltb a b
lt-lit a b ha hb = ap₂ lt (lit_lem a ha) (lit_lem b hb) ∙ lt_fin a b

min_fin :
    (a b : ℕ)
    → min_float (fin false (a * one_units)) (fin false (b * one_units))
      ≡ fin false (min a b * one_units)
unfolding min_float lt
min_fin a b = ground arith

pub min-lit :
    (a b : ℕ)
    → a < 9007199254740992
    → b < 9007199254740992
    → min_float (lit a) (lit b) ≡ lit (min a b)
min-lit a b ha hb =
    ap₂ min_float (lit_lem a ha) (lit_lem b hb)
    ∙ min_fin a b
    ∙ sym (lit_lem (min a b) (omega arith))

-- A small integer is a finite value.
pub from_ℤ-finite :
    (a : ℤ) → pos_part a + neg_part a < 9007199254740992 → is_finite (from_ℤ a) ≡ true
unfolding from_ℤ
from_ℤ-finite (pos n) h = ap is_finite (rounded_whole false n (n * one_units) refl (omega arith))
from_ℤ-finite (negsuc n) h =
    ap is_finite (rounded_whole true (suc n) (suc n * one_units) refl (omega arith))

pub zero-mul : {y : Float64} → IsPositive y → mul (lit 0) y ≡ lit 0
zero-mul (positive {a} h) =
    ap (λ t. mul t (fin false a)) (lit_lem 0 (omega arith))
    ∙ mul_fin (0 * one_units) a
    ∙ ap (λ (t : ℕ). rounded false t one_units) (zero_product one_units a)
    ∙ rounded_exact false 0 one_units (omega arith) (omega arith)
    ∙ sym (lit_lem 0 (omega arith))
  where
    zero_product : (u b : ℕ) → 0 * u * b ≡ 0 * u * u
    zero_product u b = omega arith
