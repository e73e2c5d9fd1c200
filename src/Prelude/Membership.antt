-- ===== src/Prelude/Membership.antt =====
-- What a list holds.
use mathlib.Core.Path.{◌≡◌, refl, ◌∙◌, sym, ap, subst}
use mathlib.Core.Logic.{◌⊎◌, inl, inr}
use mathlib.Core.Bool.{Bool, false}
use mathlib.Core.List.{List, [], ◌∷◌, ◌++◌, map}
use incus_compose.Prelude.Tests.{if◌then◌else◌, if_both}

module _ {A : Type 0} where
  abbrev pub In : A → List A → Type 0
  In x [] = ⊥
  In x (y ∷ ys) = (y ≡ x) ⊎ In x ys

  pub In-append_left : (x : A) (xs ys : List A) → In x xs → In x (xs ++ ys)
  In-append_left x [] ys h = absurd h
  In-append_left x (z ∷ zs) ys (inl same) = inl same
  In-append_left x (z ∷ zs) ys (inr more) = inr (In-append_left x zs ys more)

  pub In-append_right : (x : A) (xs ys : List A) → In x ys → In x (xs ++ ys)
  In-append_right x [] ys h = h
  In-append_right x (z ∷ zs) ys h = inr (In-append_right x zs ys h)

  pub In-last : (x : A) (xs : List A) → In x (xs ++ x ∷ [])
  In-last x xs = In-append_right x xs (x ∷ []) (inl refl)

  pub In-append_cases : (x : A) (xs ys : List A) → In x (xs ++ ys) → In x xs ⊎ In x ys
  In-append_cases x [] ys h = inr h
  In-append_cases x (z ∷ zs) ys (inl same) = inl (inl same)
  In-append_cases x (z ∷ zs) ys (inr more) = elim (In-append_cases x zs ys more) [
    | inl left ↦ inl (inr left)
    | inr right ↦ inr right
  ]

  -- `slices.DeleteFunc`
  abbrev pub delete_func : (A → Bool) → List A → List A
  delete_func p [] = []
  delete_func p (x ∷ xs) = if p x then delete_func p xs else x ∷ delete_func p xs

  pub In-delete_func :
      (p : A → Bool) (x : A) (xs : List A) → p x ≡ false → In x xs → In x (delete_func p xs)
  In-delete_func p x [] kept h = absurd h
  In-delete_func p x (y ∷ ys) kept (inl same) =
      let rest = delete_func p ys in
      subst (λ l. In x l) (sym (ap (λ b. if b then rest else y ∷ rest) (ap p same ∙ kept)))
        (inl same)
  In-delete_func p x (y ∷ ys) kept (inr more) =
      let deeper = In-delete_func p x ys kept more in
      let rest = delete_func p ys in if_both (λ l. In x l) (p y) rest (y ∷ rest) deeper (inr deeper)

  pub In-of_delete_func : (p : A → Bool) (x : A) (xs : List A) → In x (delete_func p xs) → In x xs
  In-of_delete_func p x [] h = absurd h
  In-of_delete_func p x (y ∷ ys) h =
      let rest = delete_func p ys in
      if_both (λ l. In x l → In x (y ∷ ys)) (p y) rest (y ∷ rest)
        (λ here. inr (In-of_delete_func p x ys here))
        (λ here. elim here [
          | inl same ↦ inl same
          | inr later ↦ inr (In-of_delete_func p x ys later)
        ])
        h

-- Where an element of a mapped list comes from.
pub In-map :
    {A B : Type 0} (f : A → B) (y : B) (xs : List A)
    → In y (map f xs)
    → (x : A) × In x xs × (f x ≡ y)
In-map f y [] h = absurd h
In-map f y (x ∷ xs) (inl same) = (x, inl refl, same)
In-map f y (x ∷ xs) (inr h) = let (z, here, same) = In-map f y xs h in (z, inr here, same)
