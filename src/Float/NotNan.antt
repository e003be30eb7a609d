-- ===== src/Float/NotNan.antt =====
-- Where the operations do not give NaN.
use mathlib.Core.Path.{subst}
use fraud_detection_lite.Float.Ops.{
  Float64, nan, inf, fin, one_units, pack, rounded, opposite, neg, add, sub, div, lt, eq, le,
  is_nan, is_finite, from_ℤ,
}
use fraud_detection_lite.Float.Order.{◌⊑◌, finite, below_inf}
use fraud_detection_lite.Float.Literals.{lit_lem}
use fraud_detection_lite.Constants.{lit, numbers}
use fraud_detection_lite.Prelude.Int.{ℤ, pos, negsuc}
use fraud_detection_lite.Prelude.{
  ℕ, zero, suc, ◌+◌, ◌-◌, ◌*◌, ◌<◌, ◌≡◌, refl, sym, Bool, true, false, not, ap, ◌∙◌, arith,
}

pub pack-not_nan : (s : Bool) (m : ℕ) → is_nan (pack s m) ≡ false
unfolding pack
pack-not_nan s m = ground arith

pub rounded-not_nan : (s : Bool) (p q : ℕ) → is_nan (rounded s p q) ≡ false
unfolding rounded
rounded-not_nan s p q = pack-not_nan s _

opposite-not_nan : (s : Bool) (a b : ℕ) → is_nan (opposite s a b) ≡ false
unfolding opposite
opposite-not_nan s a b =
    ground (arith, rounded-not_nan s (a - b) 1, rounded-not_nan (not s) (b - a) 1)

-- A finite value is added to or subtracted from any other value.
pub add-not_nan : (x y : Float64) → is_nan x ≡ false → is_finite y ≡ true → is_nan (add x y) ≡ false
unfolding add
add-not_nan nan y h k = h
add-not_nan (inf s) nan h k = cc
add-not_nan (inf s) (inf t) h k = cc
add-not_nan (inf s) (fin t b) h k = refl
add-not_nan (fin s a) nan h k = cc
add-not_nan (fin s a) (inf t) h k = cc
add-not_nan (fin s a) (fin t b) h k =
    ground (arith, rounded-not_nan s (a + b) 1, opposite-not_nan s a b)

pub sub-not_nan : (x y : Float64) → is_nan x ≡ false → is_finite y ≡ true → is_nan (sub x y) ≡ false
unfolding sub neg
sub-not_nan x nan h k = cc
sub-not_nan x (inf t) h k = cc
sub-not_nan x (fin t b) h k = add-not_nan x (fin (not t) b) h refl

zero-eq : (t : Bool) → eq (fin t 0) (lit 0) ≡ true
unfolding numbers
zero-eq true = refl
zero-eq false = refl

-- So is a division by a finite value other than zero.
pub div-not_nan :
    (x y : Float64)
    → is_nan x ≡ false
    → is_finite y ≡ true
    → eq y (lit 0) ≡ false
    → is_nan (div x y) ≡ false
unfolding div
div-not_nan nan y h k z = h
div-not_nan (inf s) nan h k z = cc
div-not_nan (inf s) (inf t) h k z = cc
div-not_nan (inf s) (fin t b) h k z = refl
div-not_nan (fin s a) nan h k z = cc
div-not_nan (fin s a) (inf t) h k z = cc
div-not_nan (fin s a) (fin t zero) h k z = cc (zero-eq t)
div-not_nan (fin s a) (fin t (suc b)) h k z = rounded-not_nan _ _ _

-- What is not at most a whole constant lies above it.
above : (z : Float64) (u : ℕ) → is_nan z ≡ false → le z (fin false u) ≡ false → fin false u ⊑ z
unfolding le lt eq
above nan u h e = cc
above (inf true) u h e = cc
above (inf false) u h e = below_inf
above (fin true zero) u h e = absurd (ground arith)
above (fin true (suc a)) u h e = absurd (ground arith)
above (fin false a) u h e = finite (ground arith)

pub not_le→⊑ :
    (z : Float64) (n : ℕ)
    → n < 9007199254740992
    → is_nan z ≡ false
    → le z (lit n) ≡ false
    → lit n ⊑ z
not_le→⊑ z n l h e =
    subst (λ t. t ⊑ z) (sym (lit_lem n l))
      (above z (n * one_units) h (ap (le z) (sym (lit_lem n l)) ∙ e))

pub from_ℤ-not_nan : (a : ℤ) → is_nan (from_ℤ a) ≡ false
unfolding from_ℤ
from_ℤ-not_nan (pos n) = rounded-not_nan false (n * one_units) 1
from_ℤ-not_nan (negsuc n) = rounded-not_nan true (suc n * one_units) 1
