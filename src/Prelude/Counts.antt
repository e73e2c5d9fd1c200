-- ===== src/Prelude/Counts.antt =====
-- How many elements of a list pass a test: what a list holds once its order is forgotten.
use Prim.Native.Nat.{ℕ, suc, ◌+◌, ◌≤◌}
use mathlib.Core.Path.{◌≡◌, refl, ap}
use mathlib.Core.Bool.{Bool, true}
use mathlib.Core.List.{List, [], ◌∷◌, ◌++◌}
use native.Mathlib.Omega.{arith}
use incus_compose.Prelude.Tests.{if◌then◌else◌}
use incus_compose.Prelude.Lists.{length}

module _ {ℓ} {A : Type ℓ} (p : A → Bool) where
  abbrev pub count_if : List A → ℕ
  count_if [] = 0
  count_if (x ∷ xs) = if p x then suc (count_if xs) else count_if xs

  pub count_if-append : (xs ys : List A) → count_if (xs ++ ys) ≡ count_if xs + count_if ys
  count_if-append [] ys = omega arith
  count_if-append (x ∷ xs) ys = ground (arith, count_if-append xs ys)

  pub count_if_le : (xs : List A) → count_if xs ≤ length xs
  count_if_le [] = omega arith
  count_if_le (x ∷ xs) = ground (arith, count_if_le xs)

pub count_if_all {ℓ} : {A : Type ℓ} (xs : List A) → count_if (λ x. true) xs ≡ length xs
count_if_all [] = refl
count_if_all (x ∷ xs) = ap suc (count_if_all xs)
