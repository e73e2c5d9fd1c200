-- ===== src/Enricher/Reads/Sound.antt =====
-- Where the reads of the enricher's table are: every call that the table holds is in flight, waits for
-- the pool, is held cold, or is held behind its project's own read.
use incus_compose.Prelude.{
  ℕ, ◌≡◌, refl, sym, ap, ◌∙◌, subst, ◌⊎◌, inl, inr, Bool, true, false, none, some, String, List, [],
  ◌∷◌, ◌++◌, str_eq, str_eq_iff, if◌then◌else◌, In, In-append_left, Bool-cases, if_split, if_both,
}
use incus_compose.Prelude.Dict.{Dict, lookup, insert, delete, lookup-insert, lookup-delete}
use incus_compose.Enricher.Reads.{
  Call, Table, project_read, is_instance, is_project, resource_key, held_for, is_running,
}

-- A call's key is made of its kind, its project and its name; the read of a project has no name.
pub record IsNamed (c : Call) : Type 0 where
  pub key_of : c.key ≡ resource_key c.kind c.project c.name
  pub nameless : is_project c.kind ≡ true → c.name ≡ ""

abbrev pub project_key : String → String
project_key project = resource_key project_read project ""

-- Where a call is. `Landed` tells the projects whose own read has landed a moment ago.
pub data Place (Landed : String → Type 0) (t : Table) (key : String) (id : ℕ) : Type 0 where
  in_flight : In id t.taken → Place Landed t key id
  refused : In id t.waiting → Place Landed t key id
  held_cold :
      t.warm ≡ false → is_instance (t.heap id).kind ≡ true → In key t.cold → Place Landed t key id
  behind :
      is_instance (t.heap id).kind ≡ true
      → In key (held_for t.pending_project (t.heap id).project)
      → (is_running t.calls (project_key (t.heap id).project) ≡ true) ⊎ Landed (t.heap id).project
      → Place Landed t key id

module _ {Landed Landed' : String → Type 0} {t t' : Table} (key : String) (id : ℕ) where
  -- A call stays where it is when the table only changes elsewhere.
  pub Place-map :
      (t'.heap id).project ≡ (t.heap id).project
      → (t'.heap id).kind ≡ (t.heap id).kind
      → (In id t.taken → In id t'.taken)
      → (In id t.waiting → In id t'.waiting)
      → (t.warm ≡ false → In key t.cold → (t'.warm ≡ false) × In key t'.cold)
      → (In key (held_for t.pending_project (t.heap id).project)
          → In key (held_for t'.pending_project (t.heap id).project))
      → ((is_running t.calls (project_key (t.heap id).project) ≡ true) ⊎ Landed (t.heap id).project
          → (is_running t'.calls (project_key (t.heap id).project) ≡ true)
            ⊎ Landed' (t.heap id).project)
      → Place Landed t key id
      → Place Landed' t' key id
  Place-map project kind flies waits cools holds runs (in_flight h) = in_flight (flies h)
  Place-map project kind flies waits cools holds runs (refused h) = refused (waits h)
  Place-map project kind flies waits cools holds runs (held_cold warm inst h) =
      held_cold (cools warm h).0 (ap is_instance kind ∙ inst) (cools warm h).1
  Place-map project kind flies waits cools holds runs (behind inst h running) =
      behind (ap is_instance kind ∙ inst)
        (subst (λ p. In key (held_for t'.pending_project p)) (sym project) (holds h))
        (subst (λ p. (is_running t'.calls (project_key p) ≡ true) ⊎ Landed' p) (sym project)
          (runs running))

-- Every call of the table has its key and is somewhere, or is among the keys still to be sent.
pub record Sound (Landed : String → Type 0) (due : List String) (t : Table) : Type 0 where
  pub keyed : (key : String) (id : ℕ) → lookup key t.calls ≡ some id → (t.heap id).key ≡ key
  pub named : (key : String) (id : ℕ) → lookup key t.calls ≡ some id → IsNamed (t.heap id)
  pub placed :
      (key : String) (id : ℕ) → lookup key t.calls ≡ some id → Place Landed t key id ⊎ In key due
  -- No read of a project is held cold.
  pub plain : (project : String) → In (project_key project) t.cold → ⊥

abbrev pub Nothing : String → Type 0
Nothing p = ⊥

-- The calls of the table are where they should be.
abbrev pub IsSound : Table → Type 0
IsSound t = Sound Nothing [] t

-- A key that another entry is put or taken out at.
pub lookup-insert_other :
    {V : Type 0} (k j : String) (v : V) (m : Dict V)
    → str_eq k j ≡ false
    → lookup j (insert k v m) ≡ lookup j m
lookup-insert_other k j v m other =
    lookup-insert k j v m ∙ ap (λ b. if b then some v else lookup j m) other

pub lookup-delete_other :
    {V : Type 0} (k j : String) (m : Dict V)
    → str_eq k j ≡ false
    → lookup j (delete k m) ≡ lookup j m
lookup-delete_other k j m other =
    lookup-delete k j m ∙ ap (λ b. if b then none else lookup j m) other

pub lookup-insert_same :
    {V : Type 0} (k : String) (v : V) (m : Dict V) → lookup k (insert k v m) ≡ some v
lookup-insert_same k v m =
    lookup-insert k k v m ∙ ap (λ b. if b then some v else lookup k m) ((str_eq_iff k k).1 refl)

-- What a map holds that an entry has been put in or taken out of.
pub lookup-insert_cases :
    {V : Type 0} (k j : String) (v w : V) (m : Dict V)
    → lookup j (insert k v m) ≡ some w
    → ((k ≡ j) × (v ≡ w)) ⊎ ((str_eq k j ≡ false) × (lookup j m ≡ some w))
lookup-insert_cases k j v w m held = elim (Bool-cases (str_eq k j)) [
  | inl same ↦
      let one = (str_eq_iff k j).0 same in
      let both : some v ≡ some w =
        sym (lookup-insert_same k v m) ∙ ap (λ i. lookup i (insert k v m)) one ∙ held in
      inl (one, cc both)
  | inr differs ↦ inr (differs, sym (lookup-insert_other k j v m differs) ∙ held)
]

pub lookup-delete_cases :
    {V : Type 0} (k j : String) (w : V) (m : Dict V)
    → lookup j (delete k m) ≡ some w
    → (str_eq k j ≡ false) × (lookup j m ≡ some w)
lookup-delete_cases k j w m held = elim (Bool-cases (str_eq k j)) [
  | inl same ↦
      let gone = sym (lookup-delete k j m) ∙ held in
      let none_held : none ≡ some w = sym (ap (λ b. if b then none else lookup j m) same) ∙ gone in
      absurd (cc none_held)
  | inr differs ↦ (differs, sym (lookup-delete_other k j m differs) ∙ held)
]

pub running-insert :
    (k j : String) (id : ℕ) (m : Dict ℕ)
    → is_running m j ≡ true
    → is_running (insert k id m) j ≡ true
running-insert k j id m h =
    ap (λ o. elim o as (λ x. Bool) [ none ↦ false | some i ↦ true ]) (lookup-insert k j id m)
    ∙ if_both (λ o. elim o as (λ x. Bool) [ none ↦ false | some i ↦ true ] ≡ true) (str_eq k j)
        (some id) (lookup j m) refl h

pub running-delete :
    (k j : String) (m : Dict ℕ)
    → str_eq k j ≡ false
    → is_running m j ≡ true
    → is_running (delete k m) j ≡ true
running-delete k j m differs h =
    ap (λ o. elim o as (λ x. Bool) [ none ↦ false | some i ↦ true ])
      (lookup-delete_other k j m differs)
    ∙ h

-- A list of keys put in the place of one that holds no more.
pub held_for-put :
    (p q j : String) (keys : List String) (m : Dict (List String))
    → (In j (held_for m p) → In j keys)
    → In j (held_for m q)
    → In j (held_for (insert p keys m) q)
held_for-put p q j keys m kept h =
    subst (λ o. In j (elim o as (λ x. List String) [ none ↦ [] | some found ↦ found ]))
      (sym (lookup-insert p q keys m))
      (if_split (λ o. In j (elim o as (λ x. List String) [ none ↦ [] | some found ↦ found ]))
        (str_eq p q) (some keys) (lookup q m)
        (λ same. kept (subst (λ r. In j (held_for m r)) (sym ((str_eq_iff p q).0 same)) h))
        (λ other. h))

pub held_for-append :
    (p q k j : String) (m : Dict (List String))
    → In j (held_for m q)
    → In j (held_for (insert p (held_for m p ++ k ∷ []) m) q)
held_for-append p q k j m =
    held_for-put p q j (held_for m p ++ k ∷ []) m (In-append_left j (held_for m p) (k ∷ []))

pub held_for-insert :
    (p : String) (keys : List String) (j : String) (m : Dict (List String))
    → In j keys
    → In j (held_for (insert p keys m) p)
held_for-insert p keys j m h =
    subst (λ o. In j (elim o as (λ x. List String) [ none ↦ [] | some found ↦ found ]))
      (sym (lookup-insert_same p keys m)) h

pub held_for-delete :
    (p q j : String) (m : Dict (List String))
    → str_eq p q ≡ false
    → In j (held_for m q)
    → In j (held_for (delete p m) q)
held_for-delete p q j m differs h =
    subst (λ o. In j (elim o as (λ x. List String) [ none ↦ [] | some found ↦ found ]))
      (sym (lookup-delete_other p q m differs)) h
