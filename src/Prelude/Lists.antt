-- ===== src/Prelude/Lists.antt =====
-- Lists measured by native numbers, under the library's names.
use Prim.Native.Nat.{ℕ, zero, suc, ◌+◌, ◌≤◌}
use mathlib.Core.Path.{◌≡◌}
use mathlib.Core.List.{List, [], ◌∷◌, ◌++◌}
use mathlib.Core.Bool.{Bool, true, false}
use mathlib.Core.Option.{Option, none, some}
use fraud_detection_lite.Prelude.Tests.{if◌then◌else◌}
use native.Mathlib.Omega.{arith}

module _ {ℓ} {A : Type ℓ} where
  abbrev pub length : List A → ℕ
  length [] = 0
  length (x ∷ xs) = suc (length xs)

  pub length-append : (xs ys : List A) → length (xs ++ ys) ≡ length xs + length ys
  length-append [] ys = omega arith
  length-append (x ∷ xs) ys = omega (arith, length-append xs ys)

  -- Each element satisfies P.
  abbrev pub Every {κ} : (A → Type κ) → List A → Type κ
  Every P [] = Unit
  Every P (a ∷ rest) = P a × Every P rest

  -- The elements that pass the test, in order.
  abbrev pub keep : (A → Bool) → List A → List A
  keep test [] = []
  keep test (a ∷ rest) = let kept = keep test rest in if test a then a ∷ kept else kept

  -- The first element that passes the test.
  abbrev pub first_of : (A → Bool) → List A → Option A
  first_of test [] = none
  first_of test (a ∷ rest) = let later = first_of test rest in if test a then some a else later

  abbrev pub take : ℕ → List A → List A
  take zero rest = []
  take (suc n) [] = []
  take (suc n) (a ∷ rest) = a ∷ take n rest

  abbrev pub drop : ℕ → List A → List A
  drop zero rest = rest
  drop (suc n) [] = []
  drop (suc n) (a ∷ rest) = drop n rest

  pub Every-append_one {κ} :
      (P : A → Type κ) (given : List A) (a : A) → Every P given → P a → Every P (given ++ a ∷ [])
  Every-append_one P [] a h k = (k, tt)
  Every-append_one P (b ∷ given) a (hb, h) k = (hb, Every-append_one P given a h k)

  pub Every-mono {κ μ} :
      (P : A → Type κ) (Q : A → Type μ) (given : List A)
      → ((a : A) → P a → Q a)
      → Every P given
      → Every Q given
  Every-mono P Q [] f h = tt
  Every-mono P Q (a ∷ given) f (ha, h) = (f a ha, Every-mono P Q given f h)

  pub length-keep : (test : A → Bool) (given : List A) → length (keep test given) ≤ length given
  length-keep test [] = omega arith
  length-keep test (a ∷ given) = step (test a) (keep test given) (length-keep test given)
    where
      step :
          (b : Bool) (kept : List A)
          → length kept ≤ length given
          → length (if b then a ∷ kept else kept) ≤ suc (length given)
      step true kept h = omega arith
      step false kept h = omega arith
