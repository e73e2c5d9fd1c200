-- ===== src/Stack/Batches.antt =====
-- The batches of a Stack (client/stack.go): one for each priority, in order.
use incus_compose.Prelude.{
  ℕ, ◌≡◌, refl, ap, sym, ◌∙◌, subst, Bool, true, false, List, [], ◌∷◌, ◌++◌, append-nil,
  append_assoc, ◌==◌, ==_iff, arith, All, All-mono, All-append, concat, concat-append,
  if◌then◌else◌, if_both, if_split, if_push,
}
use incus_compose.Stack.{
  Resource, Stack, ahead, sorted, sort, flush, group_from, group, group_by_priority,
}
use incus_compose.Stack.Sorting.{
  with_priority, NoneAhead, IsSorted, sorted-IsSorted, with_priority-sorted,
}

abbrev pub Uniform : ℕ → List Resource → Type 0
Uniform p rs = All (λ r. r.priority ≡ p) rs

-- Every resource of the list comes strictly after priority `p`.
abbrev pub AllAfter : Bool → ℕ → List Resource → Type 0
AllAfter desc p rs = All (λ r. ahead desc p r.priority ≡ true) rs

-- Each batch has one priority, and all the later batches come strictly after it.
abbrev pub Layered : Bool → List (List Resource) → Type 0
Layered desc [] = Unit
Layered desc (batch ∷ batches) =
    ((p : ℕ) × Uniform p batch × AllAfter desc p (concat batches)) × Layered desc batches

concat-flush :
    (batches : List (List Resource)) (batch : List Resource)
    → concat (flush batches batch) ≡ concat batches ++ (batch ++ [])
concat-flush batches [] = sym (append-nil (concat batches))
concat-flush batches (b ∷ batch) = concat-append batches ((b ∷ batch) ∷ [])

concat-group_from :
    (batches : List (List Resource)) (batch : List Resource) (c : ℕ) (rs : List Resource)
    → concat (group_from batches batch c rs) ≡ concat batches ++ (batch ++ rs)
unfolding group_from
concat-group_from batches batch c [] = concat-flush batches batch
concat-group_from batches batch c (r ∷ rs) =
    if_both (λ l. concat l ≡ concat batches ++ (batch ++ r ∷ rs)) (r.priority == c)
      (group_from batches (batch ++ r ∷ []) c rs)
      (group_from (batches ++ batch ∷ []) (r ∷ []) r.priority rs)
      (concat-group_from batches (batch ++ r ∷ []) c rs
        ∙ ap (λ l. concat batches ++ l) (append_assoc batch (r ∷ []) rs))
      (concat-group_from (batches ++ batch ∷ []) (r ∷ []) r.priority rs
        ∙ ap (λ l. l ++ r ∷ rs) (concat-append batches (batch ∷ []))
        ∙ append_assoc (concat batches) (batch ++ []) (r ∷ rs)
        ∙ ap (λ l. concat batches ++ (l ++ r ∷ rs)) (append-nil batch))

-- The batches done are not looked at again.
group_from-batches :
    (batches : List (List Resource)) (batch : List Resource) (c : ℕ) (rs : List Resource)
    → group_from batches batch c rs ≡ batches ++ group_from [] batch c rs
unfolding group_from
group_from-batches batches [] c [] = sym (append-nil batches)
group_from-batches batches (b ∷ batch) c [] = refl
group_from-batches batches batch c (r ∷ rs) =
    if_push (λ l. batches ++ l) (r.priority == c)
      (group_from-batches batches (batch ++ r ∷ []) c rs)
      (group_from-batches (batches ++ batch ∷ []) (r ∷ []) r.priority rs
        ∙ append_assoc batches (batch ∷ []) (group_from [] (r ∷ []) r.priority rs)
        ∙ ap (λ l. batches ++ l) (sym (group_from-batches (batch ∷ []) (r ∷ []) r.priority rs)))

-- What is not ahead of `c`, nor `c` itself, comes after it.
AllAfter-from :
    (desc : Bool) (c : ℕ) (r : Resource) (rs : List Resource)
    → (r.priority == c) ≡ false
    → ahead desc r.priority c ≡ false
    → NoneAhead desc r.priority rs
    → AllAfter desc c (r ∷ rs)
AllAfter-from true c r rs apart behind rest =
    (ground arith, All-mono (λ y hy. ground arith) rs rest)
AllAfter-from false c r rs apart behind rest =
    (ground arith, All-mono (λ y hy. ground arith) rs rest)

Layered-group_from :
    (desc : Bool) (b : Resource) (batch : List Resource) (c : ℕ) (rs : List Resource)
    → Uniform c (b ∷ batch)
    → NoneAhead desc c rs
    → IsSorted desc rs
    → Layered desc (group_from [] (b ∷ batch) c rs)
unfolding group_from
Layered-group_from desc b batch c [] uniform none_ahead in_order = ((c, uniform, tt), tt)
Layered-group_from desc b batch c (r ∷ rs) uniform none_ahead in_order =
    if_split (Layered desc) (r.priority == c) (group_from [] (b ∷ batch ++ r ∷ []) c rs)
      (group_from ((b ∷ batch) ∷ []) (r ∷ []) r.priority rs)
      (λ same.
        Layered-group_from desc b (batch ++ r ∷ []) c rs
          (All-append (λ x. x.priority ≡ c) (b ∷ batch) (r ∷ []) uniform
            ((==_iff r.priority c).0 same, tt))
          none_ahead.1 in_order.1)
      (λ other.
        subst (Layered desc) (sym (group_from-batches ((b ∷ batch) ∷ []) (r ∷ []) r.priority rs)) (
          (
            c,
            uniform,
            subst (AllAfter desc c) (sym (concat-group_from [] (r ∷ []) r.priority rs))
                (AllAfter-from desc c r rs other none_ahead.0 in_order.0),
          ),
          Layered-group_from desc r [] r.priority rs (refl, tt) in_order.0 in_order.1,
        ))

pub concat-group : (rs : List Resource) → concat (group rs) ≡ rs
concat-group [] = refl
concat-group (r ∷ rs) = concat-group_from [] [] r.priority (r ∷ rs)

-- The loop starts with an empty batch of the first resource's priority.
group_from-started :
    (r : Resource) (rs : List Resource) → group (r ∷ rs) ≡ group_from [] (r ∷ []) r.priority rs
unfolding group_from
group_from-started r rs =
    ap
      (λ t.
        if t
        then group_from [] (r ∷ []) r.priority rs
        else group_from ([] ∷ []) (r ∷ []) r.priority rs)
      ((==_iff r.priority r.priority).1 refl)

Layered-group : (desc : Bool) (rs : List Resource) → IsSorted desc rs → Layered desc (group rs)
Layered-group desc [] in_order = tt
Layered-group desc (r ∷ rs) in_order =
    subst (Layered desc) (sym (group_from-started r rs))
      (Layered-group_from desc r [] r.priority rs (refl, tt) in_order.0 in_order.1)

-- The batches of a run hold one priority each and come strictly in the order asked for; together
-- they hold, for every priority, exactly the resources of the stack with that priority, in the
-- order in which they were added.
pub group_by_priority-Layered :
    (s : Stack)
    → Layered s.options.sort_descending (group_by_priority (sort s))
      × ((p : ℕ)
          → with_priority p (concat (group_by_priority (sort s))) ≡ with_priority p s.resources)
unfolding group_by_priority sort
group_by_priority-Layered s =
    let desc = s.options.sort_descending in
    (
      Layered-group desc (sorted desc s.resources) (sorted-IsSorted desc s.resources),
      λ p.
          ap (with_priority p) (concat-group (sorted desc s.resources))
          ∙ with_priority-sorted desc p s.resources,
    )
