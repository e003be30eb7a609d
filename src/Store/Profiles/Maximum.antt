-- ===== src/Store/Profiles/Maximum.antt =====
-- The largest amount of a recalculated profile, and its cast.
use fraud_detection_lite.Prelude.{
  ℕ, zero, suc, ◌+◌, ◌*◌, ◌≤◌, ◌<◌, ◌^◌, ◌≡◌, ◌∙◌, refl, sym, ap, Bool, true, false, Bool-cases,
  inl, inr, arith, ltb, ltb→lt, lt→ltb, List, [], ◌∷◌, ◌++◌, if◌then◌else◌,
}
use fraud_detection_lite.Prelude.Int.{ℤ, pos, pos_part, neg_part}
use fraud_detection_lite.Float.Round.{nearest_even, nearest_even_ge}
use fraud_detection_lite.Float.Ops.{Float64, nan, inf, fin, one_units, lt, max_float}
use fraud_detection_lite.Float.Order.{◌⊑◌, finite, below_inf, infinite}
use fraud_detection_lite.Float.Monotone.{ltb-false→le}
use fraud_detection_lite.Specs.Error.{ok, err}
use fraud_detection_lite.Store.Tables.{cast_integer, in_integer, out_of_range, or_zero, largest}

-- A value that no INTEGER holds, or NaN.
abbrev pub IsTooLarge : Float64 → Type 0
IsTooLarge nan = Unit
IsTooLarge (inf false) = Unit
IsTooLarge (inf true) = ⊥
IsTooLarge (fin false a) = 2147483648 * one_units ≤ a
IsTooLarge (fin true a) = ⊥

either :
    (b : Bool) (a : ℕ)
    → IsTooLarge (fin false a)
    → IsTooLarge (if b then fin false a else fin false a)
either true a h = h
either false a h = h

IsTooLarge-max_left : (x y : Float64) → IsTooLarge x → IsTooLarge (max_float x y)
unfolding max_float lt
IsTooLarge-max_left nan y h = tt
IsTooLarge-max_left (inf false) nan h = tt
IsTooLarge-max_left (inf false) (inf false) h = tt
IsTooLarge-max_left (inf false) (inf true) h = tt
IsTooLarge-max_left (inf false) (fin false b) h = tt
IsTooLarge-max_left (inf false) (fin true b) h = tt
IsTooLarge-max_left (inf true) y h = absurd h
IsTooLarge-max_left (fin true a) y h = absurd h
IsTooLarge-max_left (fin false a) nan h = tt
IsTooLarge-max_left (fin false a) (inf false) h = tt
IsTooLarge-max_left (fin false a) (inf true) h = h
IsTooLarge-max_left (fin false a) (fin false b) h = elim (Bool-cases (ltb a b)) [
  | inl less ↦ rw less (omega (arith, h, ltb→lt a b less))
  | inr more ↦ rw more (either (ltb b a) a h)
]
IsTooLarge-max_left (fin false a) (fin true b) h = either (ltb 0 (b + a)) a h

IsTooLarge-max_right : (x y : Float64) → IsTooLarge y → IsTooLarge (max_float x y)
unfolding max_float lt
IsTooLarge-max_right nan y h = tt
IsTooLarge-max_right (inf s) nan h = tt
IsTooLarge-max_right (inf false) (inf false) h = tt
IsTooLarge-max_right (inf true) (inf false) h = tt
IsTooLarge-max_right x (inf true) h = absurd h
IsTooLarge-max_right x (fin true b) h = absurd h
IsTooLarge-max_right (inf false) (fin false b) h = tt
IsTooLarge-max_right (inf true) (fin false b) h = h
IsTooLarge-max_right (fin s a) nan h = tt
IsTooLarge-max_right (fin false a) (inf false) h = tt
IsTooLarge-max_right (fin true a) (inf false) h = tt
IsTooLarge-max_right (fin false a) (fin false b) h = elim (Bool-cases (ltb a b)) [
  | inl less ↦ rw less h
  | inr more ↦ rw more (either (ltb b a) a (omega (arith, h, ltb-false→le b a more)))
]
IsTooLarge-max_right (fin true a) (fin false b) h = rw (lt→ltb 0 (a + b) (omega (arith, h))) h

-- Where one amount is too large, so is the largest.
pub largest-IsTooLarge :
    (before : List Float64) (x : Float64) (after : List Float64)
    → IsTooLarge x
    → IsTooLarge (or_zero (largest (before ++ x ∷ after)))
unfolding largest
largest-IsTooLarge [] x [] h = h
largest-IsTooLarge [] x (y ∷ after) h = IsTooLarge-max_left x _ h
largest-IsTooLarge (y ∷ []) x after h = IsTooLarge-max_right y _ (largest-IsTooLarge [] x after h)
largest-IsTooLarge (y ∷ z ∷ before) x after h =
    IsTooLarge-max_right y _ (largest-IsTooLarge (z ∷ before) x after h)

pub cast_integer-out_of_range : (x : Float64) → IsTooLarge x → cast_integer x ≡ err out_of_range
unfolding cast_integer
cast_integer-out_of_range nan h = refl
cast_integer-out_of_range (inf s) h = refl
cast_integer-out_of_range (fin true a) h = absurd h
cast_integer-out_of_range (fin false a) h = rw (le→ltb_false (2 ^ 31) _ large) refl
  where
    large : 2147483648 ≤ nearest_even a one_units
    large = nearest_even_ge 2147483648 a one_units (omega arith) h

    le→ltb_false : (m n : ℕ) → m ≤ n → ltb n m ≡ false
    le→ltb_false m n l = ground arith

-- A cast that succeeds gives an int32, and one of a value that is not negative gives none that is.
in_integer-bound :
    (n : ℕ) (s : Bool) (a : ℤ) → in_integer n s ≡ ok a → pos_part a + neg_part a ≤ 2147483648
in_integer-bound n false a h = ground (arith, h)
in_integer-bound zero true a h = ground (arith, h)
in_integer-bound (suc n) true a h = ground (arith, h)

pub cast_integer-bound :
    (x : Float64) (a : ℤ) → cast_integer x ≡ ok a → pos_part a + neg_part a ≤ 2147483648
unfolding cast_integer
cast_integer-bound nan a h = cc
cast_integer-bound (inf s) a h = cc
cast_integer-bound (fin s u) a h = in_integer-bound (nearest_even u one_units) s a h

pub cast_integer-nonneg :
    {z x : Float64} (a : ℤ)
    → z ⊑ x
    → cast_integer x ≡ ok a
    → (n : ℕ) × (a ≡ pos n) × (n < 2147483648)
unfolding cast_integer
cast_integer-nonneg a (finite {b} l) h = fits (nearest_even b one_units) h
  where
    fits : (n : ℕ) → in_integer n false ≡ ok a → (m : ℕ) × (a ≡ pos m) × (m < 2147483648)
    fits n e = elim (Bool-cases (ltb n (2 ^ 31))) [
      | inl less ↦ (
        n,
        ok_path (sym e ∙ ap (λ b. if b then ok (pos n) else err out_of_range) less),
        ltb→lt n (2 ^ 31) less,
      )
      | inr more ↦
          absurd (never (sym e ∙ ap (λ b. if b then ok (pos n) else err out_of_range) more))
    ]
      where
        ok_path : ok a ≡ ok (pos n) → a ≡ pos n
        ok_path p = cc

        never : ok a ≡ err out_of_range → ⊥
        never p = cc
cast_integer-nonneg a below_inf h = cc
cast_integer-nonneg a infinite h = cc
