-- ===== src/Store/Lookup.antt =====
-- What `GetOrCreate` of client/resource.go returns, branch by branch, and once more.
use incus_compose.Prelude.{
  ◌≡◌, refl, sym, ap, ◌∙◌, subst, inl, inr, Bool, true, false, Option, none, some, String, List, [],
  ◌∷◌, ◌++◌, arith, str_eq_iff, Bool-cases, Option-cases,
}
use incus_compose.Store.{Resource, named, find, get, add, keep_created, created, get_or_create}
use incus_compose.Store.Unique.{IsUnique, get_or_create-IsUnique}

find-append :
    (p : Resource → Bool) (rs : List Resource) (r : Resource)
    → find p rs ≡ none
    → p r ≡ true
    → find p (rs ++ r ∷ []) ≡ some r
find-append p [] r absent this = ground arith
find-append p (x ∷ rs) r absent this = ground (arith, find-append p rs r)

find-append_other :
    (p : Resource → Bool) (rs : List Resource) (r : Resource)
    → find p rs ≡ none
    → p r ≡ false
    → find p (rs ++ r ∷ []) ≡ none
find-append_other p [] r absent this = ground arith
find-append_other p (x ∷ rs) r absent this = ground (arith, find-append_other p rs r)

module _ (kind name : String) (made : Option Resource) (rs : List Resource) where
  by_name :
      {r : Resource}
      → get kind name false rs ≡ some r
      → get_or_create kind name made rs ≡ (some r, rs)
  unfolding get_or_create
  by_name h = simp (h, get_or_create)

  by_incus_name :
      {r : Resource}
      → get kind name false rs ≡ none
      → get kind name true rs ≡ some r
      → get_or_create kind name made rs ≡ (some r, rs)
  unfolding get_or_create
  by_incus_name h i = simp (h, i, get_or_create)

  by_creation :
      get kind name false rs ≡ none
      → get kind name true rs ≡ none
      → get_or_create kind name made rs ≡ created kind made rs
  unfolding get_or_create
  by_creation h i = simp (h, i, get_or_create)

module _ (kind : String) (m : Resource) (rs : List Resource) where
  held_by_name :
      {e : Resource} → get kind m.name false rs ≡ some e → created kind (some m) rs ≡ (some e, rs)
  unfolding created keep_created
  held_by_name h = simp (h, created, keep_created)

  held_by_incus_name :
      {e : Resource}
      → get kind m.name false rs ≡ none
      → get kind m.incus_name true rs ≡ some e
      → created kind (some m) rs ≡ (some e, rs)
  unfolding created keep_created
  held_by_incus_name h i = simp (h, i, created, keep_created)

  kept_new :
      get kind m.name false rs ≡ none
      → get kind m.incus_name true rs ≡ none
      → created kind (some m) rs ≡ (some m, add m rs)
  unfolding created keep_created
  kept_new h i = simp (h, i, created, keep_created)

-- A resource goes by its own name, in its own kind.
named_itself : (kind : String) (m : Resource) → m.kind ≡ kind → named kind m.name false m ≡ true
named_itself kind m same = ground (arith, str_eq_iff m.kind kind, str_eq_iff m.name m.name)

module _ (kind name : String) (m : Resource) (rs : List Resource) where
  -- Once it has been kept, the resource that was made is found.
  kept_found :
      m.kind ≡ kind
      → get kind name false rs ≡ none
      → get kind name true rs ≡ none
      → get kind m.name false rs ≡ none
      → get_or_create kind name (some m) (add m rs) ≡ (some m, add m rs)
  unfolding get add
  kept_found same no_name no_incus_name no_other =
      let itself = named_itself kind m same in
      elim (Bool-cases (named kind name false m)) [
        | inl this ↦
            by_name kind name (some m) (add m rs)
              (find-append (named kind name false) rs m no_name this)
        | inr other ↦
            let still_none = find-append_other (named kind name false) rs m no_name other in
            elim (Bool-cases (named kind name true m)) [
              | inl this ↦
                  by_incus_name kind name (some m) (add m rs) still_none
                    (find-append (named kind name true) rs m no_incus_name this)
              | inr unlike ↦
                  by_creation kind name (some m) (add m rs) still_none
                    (find-append_other (named kind name true) rs m no_incus_name unlike)
                  ∙ held_by_name kind m (add m rs)
                      (find-append (named kind m.name false) rs m no_other itself)
            ]
      ]

module _ (kind name : String) where
  -- A call that leaves the store as it is returns the same when it is made again.
  unchanged :
      (made : Option Resource) (rs : List Resource) {r res : Resource} {rs' : List Resource}
      → get_or_create kind name made rs ≡ (some r, rs)
      → get_or_create kind name made rs ≡ (some res, rs')
      → get_or_create kind name made rs' ≡ (some res, rs')
  unchanged made rs {res = res} {rs' = rs'} found e =
      subst (λ l. get_or_create kind name made l ≡ (some res, rs')) (ap (λ g. g.1) (sym found ∙ e))
        e

  created_again :
      (made : Option Resource) (rs : List Resource) {res : Resource} {rs' : List Resource}
      → ((m : Resource) → made ≡ some m → m.kind ≡ kind)
      → get kind name false rs ≡ none
      → get kind name true rs ≡ none
      → get_or_create kind name made rs ≡ (some res, rs')
      → get_or_create kind name made rs' ≡ (some res, rs')
  unfolding created
  created_again none rs same no_name no_incus_name e =
      let nothing = sym (by_creation kind name none rs no_name no_incus_name) ∙ e in
      absurd (cc (ap (λ g. g.0) nothing))
  created_again (some m) rs {res} {rs'} same no_name no_incus_name e =
      let creation = by_creation kind name (some m) rs no_name no_incus_name in
      elim (Option-cases (get kind m.name false rs)) [
        | inr (other, found) ↦ unchanged (some m) rs (creation ∙ held_by_name kind m rs found) e
        | inl no_other ↦ elim (Option-cases (get kind m.incus_name true rs)) [
          | inr (other, found) ↦
              unchanged (some m) rs (creation ∙ held_by_incus_name kind m rs no_other found) e
          | inl no_incus_other ↦
              let kept = creation ∙ kept_new kind m rs no_other no_incus_other in
              subst (λ got. get_or_create kind name (some m) got.1 ≡ got) (sym kept ∙ e)
                (kept_found kind name m rs (same m refl) no_name no_incus_name no_other)
        ]
      ]

  -- Where the names of a store are unique and create makes resources of the kind asked for, a call
  -- of GetOrCreate that returns a resource leaves the names unique, and the same call made again
  -- returns that resource and leaves the store as it is.
  pub get_or_create-again :
      (made : Option Resource) (rs : List Resource) {res : Resource} {rs' : List Resource}
      → ((m : Resource) → made ≡ some m → m.kind ≡ kind)
      → IsUnique rs
      → get_or_create kind name made rs ≡ (some res, rs')
      → IsUnique rs' × (get_or_create kind name made rs' ≡ (some res, rs'))
  get_or_create-again made rs {res} {rs'} same unique e =
      let left = get_or_create-IsUnique kind name made rs same unique in
      let again : get_or_create kind name made rs' ≡ (some res, rs') =
        elim (Option-cases (get kind name false rs)) [
          | inr (r, found) ↦ unchanged made rs (by_name kind name made rs found) e
          | inl no_name ↦ elim (Option-cases (get kind name true rs)) [
            | inr (r, found) ↦ unchanged made rs (by_incus_name kind name made rs no_name found) e
            | inl no_incus_name ↦ created_again made rs same no_name no_incus_name e
          ]
        ] in
      (subst (λ got. IsUnique got.1) e left, again)
