-- ===== src/Float/Round.antt =====
-- Rounding to nearest, ties to even, on magnitudes that count units of 2^-1074.
use native.Mathlib.Nat.{
  div-add-mod', le-div_iff_mul-le, div-lt_iff_lt-mul, mul-div_cancel, mul-mod_left, pow-suc,
}
use fraud_detection_lite.Prelude.{
  ℕ, zero, suc, ◌+◌, ◌*◌, ◌/◌, ◌%◌, ◌^◌, ◌≤◌, ◌<◌, ◌≡◌, ◌⊎◌, ap, ltb, lt→ltb, ◌∙◌, if◌then◌else◌,
  refl, arith, Bool-cases, inl, inr,
}

-- The quotient k with remainder r / 2 of a division by q, to the nearest integer or the even one.
tie : ℕ → ℕ → ℕ → ℕ
tie k r q = if ltb (2 * r) q then k else if ltb q (2 * r) then k + 1 else k + k % 2

pub nearest_even : ℕ → ℕ → ℕ
unfolding tie
nearest_even p q = tie (p / q) (p % q) q

-- p / q to 53 significant bits: a quotient of 2 ^ 53 or more is rounded in units twice as large.
-- Fuel f is enough for p / q < 2 ^ (53 + f).
unfoldable pub round_ratio : ℕ → ℕ → ℕ → ℕ
unfolding nearest_even
round_ratio zero p q = nearest_even p q
round_ratio (suc f) p q =
    let coarser = 2 * round_ratio f p (2 * q) in
    if ltb p (9007199254740992 * q) then nearest_even p q else coarser

tie_bounds : (k r q : ℕ) → (k ≤ tie k r q) × (tie k r q ≤ k + 1)
unfolding tie
tie_bounds k r q = ground arith

tie_mono : (k r r' q : ℕ) → r ≤ r' → tie k r q ≤ tie k r' q
unfolding tie
tie_mono k r r' q h = ground arith

tie_exact : (k q : ℕ) → 0 < q → tie k 0 q ≡ k
unfolding tie
tie_exact k q h = ground arith

div_mono : (p p' q : ℕ) → 0 < q → p ≤ p' → p / q ≤ p' / q
div_mono p p' q hq h = (le-div_iff_mul-le hq).1 (omega (arith, div-add-mod' p q))

pub nearest_even_ge : (k p q : ℕ) → 0 < q → k * q ≤ p → k ≤ nearest_even p q
unfolding nearest_even
nearest_even_ge k p q hq h = omega (arith, (le-div_iff_mul-le hq).1 h, tie_bounds (p / q) (p % q) q)

nearest_even_lt : (k p q : ℕ) → 0 < q → p < k * q → nearest_even p q ≤ k
unfolding nearest_even
nearest_even_lt k p q hq h = omega (arith, (div-lt_iff_lt-mul hq).1 h, tie_bounds (p / q) (p % q) q)

remainder_mono : (p p' q : ℕ) → p / q ≡ p' / q → p ≤ p' → p % q ≤ p' % q
remainder_mono p p' q e h =
    omega (arith, div-add-mod' p q, div-add-mod' p' q, ap (λ (t : ℕ). t * q) e)

lt_or_eq : (a b : ℕ) → a ≤ b → (a < b) ⊎ (a ≡ b)
lt_or_eq a b h = omega arith

nearest_even_mono : (p p' q : ℕ) → 0 < q → p ≤ p' → nearest_even p q ≤ nearest_even p' q
unfolding nearest_even
nearest_even_mono p p' q hq h = elim (lt_or_eq (p / q) (p' / q) (div_mono p p' q hq h)) [
  | inl l ↦ omega (arith, tie_bounds (p / q) (p % q) q, tie_bounds (p' / q) (p' % q) q)
  | inr e ↦ rw e (tie_mono (p' / q) (p % q) (p' % q) q (remainder_mono p p' q e h))
]

-- A quotient of at least 2 ^ 52 stays so.
round_ratio_ge :
    (f p q : ℕ) → 0 < q → 4503599627370496 * q ≤ p → 4503599627370496 ≤ round_ratio f p q
unfolding round_ratio
round_ratio_ge zero p q hq h = nearest_even_ge 4503599627370496 p q hq h
round_ratio_ge (suc f) p q hq h = elim (Bool-cases (ltb p (9007199254740992 * q))) [
  | inl small ↦ rw small (nearest_even_ge 4503599627370496 p q hq h)
  | inr large ↦ rw large (ground (arith, round_ratio_ge f p (2 * q)))
]

-- Rounding is monotone in the numerator.
pub round_ratio_mono : (f p p' q : ℕ) → 0 < q → p ≤ p' → round_ratio f p q ≤ round_ratio f p' q
unfolding round_ratio
round_ratio_mono zero p p' q hq h = nearest_even_mono p p' q hq h
round_ratio_mono (suc f) p p' q hq h = ground (
  arith,
  nearest_even_mono p p' q hq h,
  nearest_even_lt 9007199254740992 p q hq,
  round_ratio_ge f p' (2 * q),
  round_ratio_mono f p p' (2 * q),
)

nearest_even_exact : (v q : ℕ) → 0 < q → nearest_even (v * q) q ≡ v
unfolding nearest_even
nearest_even_exact v q hq = rw (mul-div_cancel v hq) (rw (mul-mod_left v q) (tie_exact v q hq))

regroup : (w m q : ℕ) {w' : ℕ} → w' ≡ w * 2 → m * w' * q ≡ m * w * (2 * q)
regroup w m q e = rw e (omega arith)

double : (w m : ℕ) {w' : ℕ} → w' ≡ w * 2 → 2 * (m * w) ≡ m * w'
double w m e = rw e (omega arith)

-- A magnitude of at most 53 significant bits is its own rounding.
pub round_ratio_exact :
    (f e m q : ℕ)
    → 0 < q
    → m < 9007199254740992
    → e ≤ f
    → round_ratio f (m * 2 ^ e * q) q ≡ m * 2 ^ e
unfolding round_ratio
round_ratio_exact zero e m q hq hm he = nearest_even_exact (m * 2 ^ e) q hq
round_ratio_exact (suc f) zero m q hq hm he =
    rw (lt→ltb (m * 1 * q) (9007199254740992 * q) (grind arith)) (nearest_even_exact (m * 1) q hq)
round_ratio_exact (suc f) (suc e) m q hq hm he =
    elim (Bool-cases (ltb (m * 2 ^ suc e * q) (9007199254740992 * q))) [
      | inl small ↦ rw small (nearest_even_exact (m * 2 ^ suc e) q hq)
      | inr large ↦ rw large (
          ap (λ (t : ℕ). 2 * round_ratio f t (2 * q)) (regroup (2 ^ e) m q (pow-suc 2 e))
          ∙ ap (λ (t : ℕ). 2 * t) (round_ratio_exact f e m (2 * q) (omega arith) hm (omega arith))
          ∙ double (2 ^ e) m (pow-suc 2 e))
    ]

-- More fuel than enough gives the same rounding.
pub round_ratio-enough :
    (f g p q : ℕ) → p < 9007199254740992 * 2 ^ f * q → f ≤ g → round_ratio g p q ≡ round_ratio f p q
unfolding round_ratio
round_ratio-enough zero zero p q h l = refl
round_ratio-enough zero (suc g) p q h l =
    rw (lt→ltb p (9007199254740992 * q) (omega (arith, h))) refl
round_ratio-enough (suc f) zero p q h l = absurd (omega arith)
round_ratio-enough (suc f) (suc g) p q h l = elim (Bool-cases (ltb p (9007199254740992 * q))) [
  | inl small ↦ rw small refl
  | inr large ↦ rw large (
      ap (λ (t : ℕ). 2 * t)
        (round_ratio-enough f g p (2 * q)
          (below p (regroup (2 ^ f) 9007199254740992 q (pow-suc 2 f)) h) (omega arith)))
]
  where
    below : (a : ℕ) {b c : ℕ} → b ≡ c → a < b → a < c
    below a e k = omega (arith, e, k)
