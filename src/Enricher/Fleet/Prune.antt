-- ===== src/Enricher/Fleet/Prune.antt =====
-- A listing is the whole of its scope: `missing`, `pruneNetworks`, `pruneProjects` and
-- `missingInstances` of ievent/enricher/state.go.
use incus_compose.Prelude.{
  ◌≡◌, refl, ap, ◌∙◌, Bool, true, false, not, ◌&&◌, ◌||◌, Option, none, some, String, List, [], ◌∷◌,
  map, arith, str_eq, str_eq_iff, if◌then◌else◌, if_both, if_split, Option-cases, inl, inr,
}
use incus_compose.Prelude.Dict.{Dict, lookup, delete, lookup-insert, lookup-delete}
use incus_compose.Enricher.Fleet.{
  Fleet, Project, Subject, in_project, held_network, held_instance, has, before, insert_name,
  missing, missing_instances, delete_all, prune_networks, prune_projects,
}

abbrev pub is_some {ℓ} : {A : Type ℓ} → Option A → Bool
is_some none = false
is_some (some a) = true

has-insert_name :
    (n x : String) (xs : List String) → has (insert_name n xs) x ≡ str_eq n x || has xs x
unfolding insert_name
has-insert_name n x [] = refl
has-insert_name n x (y ∷ ys) =
    if_both (λ l. has l x ≡ str_eq n x || has (y ∷ ys) x) (before y n) (y ∷ insert_name n ys)
      (n ∷ y ∷ ys) (ground (arith, has-insert_name n x ys)) refl

module _ {V : Type 0} where
  missing_lem :
      (m : Dict V) (listed : List String) (x : String)
      → has (missing m listed) x ≡ is_some (lookup x m) && not (has listed x)
  unfolding missing lookup
  missing_lem [] listed x = refl
  missing_lem ((name, value) ∷ more) listed x =
      if_split (λ l. has l x ≡ is_some (lookup x ((name, value) ∷ more)) && not (has listed x))
        (has listed name) (missing more listed) (insert_name name (missing more listed))
        (λ held. ground (
          arith,
          missing_lem more listed x,
          str_eq_iff name x,
          ap (has listed) {x = name} {y = x},
          held,
        ))
        (λ gone. ground (
          arith,
          missing_lem more listed x,
          has-insert_name name x (missing more listed),
          str_eq_iff name x,
          ap (has listed) {x = name} {y = x},
          gone,
        ))

  lookup-delete_all :
      (names : List String) (m : Dict V) (x : String)
      → lookup x (delete_all names m) ≡ (if has names x then none else lookup x m)
  unfolding delete_all
  lookup-delete_all [] m x = refl
  lookup-delete_all (name ∷ names) m x =
      lookup-delete_all names (delete name m) x ∙ ground (arith, lookup-delete name x m)

  pruned_value :
      (o : Option V) (b : Bool) → (if is_some o && not b then none else o) ≡ (if b then o else none)
  pruned_value none true = refl
  pruned_value none false = refl
  pruned_value (some v) true = refl
  pruned_value (some v) false = refl

  -- What is left of a map once what a listing does not have has been taken out.
  lookup-pruned :
      (m : Dict V) (listed : List String) (x : String)
      → lookup x (delete_all (missing m listed) m) ≡ (if has listed x then lookup x m else none)
  lookup-pruned m listed x =
      lookup-delete_all (missing m listed) m x
      ∙ ap (λ b. if b then none else lookup x m) (missing_lem m listed x)
      ∙ pruned_value (lookup x m) (has listed x)

-- What is held of one project's networks after the project has been changed.
held_network-in_project :
    (p q n : String) (change : Project → Project) (s : Fleet)
    → held_network (in_project p change s) q n ≡ (
        if str_eq p q
        then elim (lookup p s.projects) [ none ↦ none | some a ↦ lookup n ((change a).networks) ]
        else held_network s q n)
unfolding held_network
held_network-in_project p q n change s = elim (Option-cases (lookup p s.projects)) [
  | inl gone ↦ ground (arith, gone, str_eq_iff p q, ap (λ x. lookup x s.projects) {x = p} {y = q})
  | inr (a, found) ↦ ground (
    arith,
    found,
    lookup-insert p q (change a) s.projects,
    str_eq_iff p q,
    ap (λ x. lookup x s.projects) {x = p} {y = q},
  )
]

held_network-prune_networks :
    (p q n : String) (listed : List String) (s : Fleet)
    → held_network (prune_networks p listed s) q n
      ≡ (if str_eq p q && not (has listed n) then none else held_network s q n)
unfolding prune_networks held_network
held_network-prune_networks p q n listed s =
    let same_project = ap (λ x. lookup x s.projects) {x = p} {y = q} in
    held_network-in_project p q n
      (λ a. record a { networks = delete_all (missing a.networks listed) a.networks }) s
    ∙ elim (Option-cases (lookup p s.projects)) [
      | inl gone ↦ ground (arith, gone, str_eq_iff p q, same_project)
      | inr (a, found) ↦
          ground (arith, found, str_eq_iff p q, same_project, lookup-pruned a.networks listed n)
    ]

prune_projects-lookup :
    (q : String) (listed : List String) (s : Fleet)
    → lookup q ((prune_projects listed s).projects)
      ≡ (if has listed q then lookup q s.projects else none)
unfolding prune_projects
prune_projects-lookup q listed s = lookup-pruned s.projects listed q

abbrev pub told : List Subject → String → String → Bool
told [] project name = false
told (x ∷ xs) project name =
    (str_eq x.project project && str_eq x.instance_name name) || told xs project name

told-map :
    (p q x : String) (names : List String)
    → told (map (λ name. record { project = p; instance_name = name }) names) q x
      ≡ str_eq p q && has names x
told-map p q x [] = ground arith
told-map p q x (name ∷ names) = ground (arith, told-map p q x names)

missing_instances_lem :
    (p q x : String) (listed : List String) (s : Fleet)
    → told (missing_instances p listed s) q x
      ≡ str_eq p q && is_some (held_instance s p x) && not (has listed x)
unfolding missing_instances held_instance
missing_instances_lem p q x listed s = elim (Option-cases (lookup p s.projects)) [
  | inl gone ↦ ground (arith, gone)
  | inr (a, found) ↦
      ground (
        arith,
        found,
        told-map p q x (missing a.instances listed),
        missing_lem a.instances listed x,
      )
]

-- A listing of a project taken in: every network the listing has is held as before and every other
-- of that project is gone, those of other projects as before; a listing of the projects leaves
-- exactly those it has, as they were; and the instances reported as gone are exactly the held ones
-- of the project that the listing left out.
pub prune_lem :
    (p q x : String) (listed : List String) (s : Fleet)
    → (held_network (prune_networks p listed s) q x
        ≡ (if str_eq p q && not (has listed x) then none else held_network s q x))
      × (lookup q ((prune_projects listed s).projects)
          ≡ (if has listed q then lookup q s.projects else none))
      × (told (missing_instances p listed s) q x
          ≡ str_eq p q && is_some (held_instance s p x) && not (has listed x))
prune_lem p q x listed s = (
  held_network-prune_networks p q x listed s,
  prune_projects-lookup q listed s,
  missing_instances_lem p q x listed s,
)
