-- ===== src/Stack/Seen.antt =====
-- What a Stack (client/stack.go) holds after `Add`: each resource once.
use incus_compose.Prelude.{
  ℕ, ◌≡◌, refl, ap, sym, ◌∙◌, Bool, true, false, ◌||◌, Option, none, some, List, [], ◌∷◌, ◌++◌,
  arith, ◌==◌, ==_iff, Bool-cases, inl, inr, if_split,
}
use incus_compose.Stack.{Action, Resource, Stack, elem, empty, add_one, add, selected, for_action_f}

abbrev pub ids : List Resource → List ℕ
ids [] = []
ids (r ∷ rs) = r.id ∷ ids rs

abbrev pub IsDistinct : List ℕ → Type 0
IsDistinct [] = Unit
IsDistinct (i ∷ is) = (elem i is ≡ false) × IsDistinct is

-- The resources are pairwise different, and `seen` answers for exactly them.
abbrev pub IsConsistent : Stack → Type 0
IsConsistent s = IsDistinct (ids s.resources) × ((i : ℕ) → elem i s.seen ≡ elem i (ids s.resources))

-- The pointers among what is handed to `Add`.
abbrev pub given : List (Option Resource) → List ℕ
given [] = []
given (none ∷ rs) = given rs
given (some r ∷ rs) = r.id ∷ given rs

elem-snoc :
    (i : ℕ) (xs : List Resource) (r : Resource)
    → elem i (ids (xs ++ r ∷ [])) ≡ (elem i (ids xs) || i == r.id)
elem-snoc i [] r = ground arith
elem-snoc i (x ∷ xs) r = ground (arith, elem-snoc i xs r)

IsDistinct-snoc :
    (xs : List Resource) (r : Resource)
    → IsDistinct (ids xs)
    → elem r.id (ids xs) ≡ false
    → IsDistinct (ids (xs ++ r ∷ []))
IsDistinct-snoc [] r h new = (refl, tt)
IsDistinct-snoc (x ∷ xs) r h new =
    (ground (arith, elem-snoc x.id xs r, h.0, new), IsDistinct-snoc xs r h.1 (ground (arith, new)))

elem-known : (i j : ℕ) (xs : List ℕ) → elem j xs ≡ true → elem i xs ≡ (elem i xs || i == j)
elem-known i j xs known = elim (Bool-cases (i == j)) [
  | inl same ↦
      let found : elem i xs ≡ true = ap (λ k. elem k xs) ((==_iff i j).0 same) ∙ known in
      ground (arith, found)
  | inr other ↦ ground (arith, other)
]

-- One more resource: there once, whether it was or not.
add_one-IsConsistent :
    (r : Resource) (s : Stack)
    → IsConsistent s
    → IsConsistent (add_one r s)
      × ((i : ℕ) → elem i (ids (add_one r s).resources) ≡ (elem i (ids s.resources) || i == r.id))
unfolding add_one
add_one-IsConsistent r s h =
    let added = record s { seen = r.id ∷ s.seen; resources = s.resources ++ r ∷ [] } in
    if_split
      (λ (t : Stack).
        IsConsistent t
        × ((i : ℕ) → elem i (ids t.resources) ≡ (elem i (ids s.resources) || i == r.id)))
      (elem r.id s.seen) s added
      (λ known. (h, λ i. elem-known i r.id (ids s.resources) (sym (h.1 r.id) ∙ known)))
      (λ new. (
        (
          IsDistinct-snoc s.resources r h.0 (sym (h.1 r.id) ∙ new),
          λ i. ground (arith, h.1 i, elem-snoc i s.resources r),
        ),
        λ i. elem-snoc i s.resources r,
      ))

-- Adding to a stack that holds each resource once and remembers exactly those gives one such, which
-- holds what it held and every resource handed to it, nil left out.
pub add-IsConsistent :
    (rs : List (Option Resource)) (s : Stack)
    → IsConsistent s
    → IsConsistent (add rs s)
      × ((i : ℕ)
          → elem i (ids (add rs s).resources) ≡ (elem i (ids s.resources) || elem i (given rs)))
unfolding add
add-IsConsistent [] s h = (h, λ i. ground arith)
add-IsConsistent (none ∷ rs) s h = add-IsConsistent rs s h
add-IsConsistent (some r ∷ rs) s h =
    let first = add_one-IsConsistent r s h in
    let rest = add-IsConsistent rs (add_one r s) first.0 in
    (rest.0, λ i. ground (arith, rest.1 i, first.1 i))

for_action_f-IsConsistent :
    (action : Action) (filter : Option (Resource → Bool)) (s : Stack)
    → IsConsistent (for_action_f action filter s)
unfolding for_action_f
for_action_f-IsConsistent action none s =
    (add-IsConsistent (selected (λ _. true) action s.resources) (empty s.options) (tt, λ i. refl)).0
for_action_f-IsConsistent action (some filter) s =
    (add-IsConsistent (selected filter action s.resources) (empty s.options) (tt, λ i. refl)).0
