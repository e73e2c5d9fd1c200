-- ===== src/Stack/Sorting.antt =====
-- The order in which a Stack (client/stack.go) runs: sorted, and stable.
use incus_compose.Prelude.{
  ℕ, ◌≡◌, refl, ap, ◌∙◌, Bool, true, false, List, [], ◌∷◌, ◌==◌, arith, All, All-mono,
  if◌then◌else◌, if_both, if_split,
}
use incus_compose.Stack.{Resource, ahead, before, insert, sorted}

-- The resources of one priority, in order.
abbrev pub with_priority : ℕ → List Resource → List Resource
with_priority p [] = []
with_priority p (r ∷ rs) =
    let rest = with_priority p rs in if r.priority == p then r ∷ rest else rest

-- No resource of the list is to run before priority `p`.
abbrev pub NoneAhead : Bool → ℕ → List Resource → Type 0
NoneAhead desc p rs = All (λ r. ahead desc r.priority p ≡ false) rs

abbrev pub IsSorted : Bool → List Resource → Type 0
IsSorted desc [] = Unit
IsSorted desc (r ∷ rs) = NoneAhead desc r.priority rs × IsSorted desc rs

pub ahead_trans :
    (desc : Bool) (p q r : ℕ)
    → ahead desc p q ≡ false
    → ahead desc q r ≡ false
    → ahead desc p r ≡ false
ahead_trans true p q r hp hq = ground arith
ahead_trans false p q r hp hq = ground arith

ahead_flip : (desc : Bool) (p q : ℕ) → ahead desc p q ≡ true → ahead desc q p ≡ false
ahead_flip true p q h = ground arith
ahead_flip false p q h = ground arith

insert-NoneAhead :
    (desc : Bool) (p : ℕ) (r : Resource) (xs : List Resource)
    → ahead desc r.priority p ≡ false
    → NoneAhead desc p xs
    → NoneAhead desc p (insert desc r xs)
unfolding insert
insert-NoneAhead desc p r [] hr h = (hr, tt)
insert-NoneAhead desc p r (x ∷ xs) hr h =
    if_both (NoneAhead desc p) (before desc x r) (x ∷ insert desc r xs) (r ∷ x ∷ xs)
      (h.0, insert-NoneAhead desc p r xs hr h.1) (hr, h)

insert-IsSorted :
    (desc : Bool) (r : Resource) (xs : List Resource)
    → IsSorted desc xs
    → IsSorted desc (insert desc r xs)
unfolding insert
insert-IsSorted desc r [] h = (tt, tt)
insert-IsSorted desc r (x ∷ xs) h =
    if_split (IsSorted desc) (before desc x r) (x ∷ insert desc r xs) (r ∷ x ∷ xs)
      (λ ahead_of_it. (
        insert-NoneAhead desc x.priority r xs (ahead_flip desc x.priority r.priority ahead_of_it)
            h.0,
        insert-IsSorted desc r xs h.1,
      ))
      (λ not_ahead. (
        (
          not_ahead,
          All-mono (λ y hy. ahead_trans desc y.priority x.priority r.priority hy not_ahead) xs h.0,
        ),
        h,
      ))

pub sorted-IsSorted : (desc : Bool) (rs : List Resource) → IsSorted desc (sorted desc rs)
unfolding sorted
sorted-IsSorted desc [] = tt
sorted-IsSorted desc (r ∷ rs) = insert-IsSorted desc r (sorted desc rs) (sorted-IsSorted desc rs)

-- Two resources of one priority are never swapped.
with_priority-swap :
    (desc : Bool) (p : ℕ) (r x : Resource) (xs : List Resource)
    → before desc x r ≡ true
    → with_priority p (x ∷ r ∷ xs) ≡ with_priority p (r ∷ x ∷ xs)
with_priority-swap true p r x xs h = ground arith
with_priority-swap false p r x xs h = ground arith

with_priority-insert :
    (desc : Bool) (p : ℕ) (r : Resource) (xs : List Resource)
    → with_priority p (insert desc r xs) ≡ with_priority p (r ∷ xs)
unfolding insert
with_priority-insert desc p r [] = refl
with_priority-insert desc p r (x ∷ xs) =
    if_split (λ l. with_priority p l ≡ with_priority p (r ∷ x ∷ xs)) (before desc x r)
      (x ∷ insert desc r xs) (r ∷ x ∷ xs)
      (λ ahead_of_it.
        ap (λ l. if x.priority == p then x ∷ l else l) (with_priority-insert desc p r xs)
        ∙ with_priority-swap desc p r x xs ahead_of_it)
      (λ _. refl)

pub with_priority-sorted :
    (desc : Bool) (p : ℕ) (rs : List Resource)
    → with_priority p (sorted desc rs) ≡ with_priority p rs
unfolding sorted
with_priority-sorted desc p [] = refl
with_priority-sorted desc p (r ∷ rs) =
    with_priority-insert desc p r (sorted desc rs)
    ∙ ap (λ l. if r.priority == p then r ∷ l else l) (with_priority-sorted desc p rs)
