-- ===== src/Store/Unique.antt =====
-- No two resources of a store (client/resource.go) have one name.
use incus_compose.Prelude.{
  ◌≤◌, ◌≡◌, refl, sym, ap, ap₂, Bool-cases, inl, inr, ◌∙◌, Bool, true, false, Option, none, some,
  String, List, [], ◌∷◌, arith, str_eq_iff, if_both, option_split, count_if, count_if-append,
  delete_func,
}
use incus_compose.Store.{
  Resource, named, find, get, add, remove, keep_created, created, get_or_create, Got,
}

-- For each kind, a name is that of one resource at most, and so is a name in Incus.
abbrev pub IsUnique : List Resource → Type 0
IsUnique rs = (kind name : String) (incus : Bool) → count_if (named kind name incus) rs ≤ 1

pub find-none : (p : Resource → Bool) (rs : List Resource) → find p rs ≡ none → count_if p rs ≡ 0
find-none p [] h = refl
find-none p (r ∷ rs) h = ground (arith, find-none p rs)

delete_func_count_le :
    (p q : Resource → Bool) (rs : List Resource) → count_if q (delete_func p rs) ≤ count_if q rs
delete_func_count_le p q [] = omega arith
delete_func_count_le p q (r ∷ rs) =
    if_both (λ l. count_if q l ≤ count_if q (r ∷ rs)) (p r) (delete_func p rs)
      (r ∷ delete_func p rs) (ground (arith, delete_func_count_le p q rs))
      (ground (arith, delete_func_count_le p q rs))

remove-IsUnique : (r : Resource) (rs : List Resource) → IsUnique rs → IsUnique (remove r rs)
unfolding remove
remove-IsUnique r rs h kind name incus = omega (
  arith,
  delete_func_count_le (named r.kind r.incus_name true) (named kind name incus) rs,
  h kind name incus,
)

-- A name that a resource goes by is not held, where neither of its names is.
alone :
    (made : Resource) (rs : List Resource)
    → get made.kind made.name false rs ≡ none
    → get made.kind made.incus_name true rs ≡ none
    → (kind name : String) (incus : Bool) → named kind name incus made ≡ true
    → count_if (named kind name incus) rs ≡ 0
unfolding get
alone made rs by_name by_incus kind name true this =
    let k : made.kind ≡ kind = ground (arith, str_eq_iff made.kind kind) in
    let n : made.incus_name ≡ name = ground (arith, str_eq_iff made.incus_name name) in
    ap₂ (λ a b. count_if (named a b true) rs) (sym k) (sym n)
    ∙ find-none (named made.kind made.incus_name true) rs by_incus
alone made rs by_name by_incus kind name false this =
    let k : made.kind ≡ kind = ground (arith, str_eq_iff made.kind kind) in
    let n : made.name ≡ name = ground (arith, str_eq_iff made.name name) in
    ap₂ (λ a b. count_if (named a b false) rs) (sym k) (sym n)
    ∙ find-none (named made.kind made.name false) rs by_name

-- A resource of which neither name is held leaves the names unique.
add-IsUnique :
    (made : Resource) (rs : List Resource)
    → get made.kind made.name false rs ≡ none
    → get made.kind made.incus_name true rs ≡ none
    → IsUnique rs
    → IsUnique (add made rs)
unfolding add get
add-IsUnique made rs by_name by_incus h kind name incus =
    let before = count_if-append (named kind name incus) rs (made ∷ []) in
    elim (Bool-cases (named kind name incus made)) [
      | inl this ↦
          let absent = alone made rs by_name by_incus kind name incus this in
          ground (arith, before, absent)
      | inr other ↦ ground (arith, before, h kind name incus)
    ]

abbrev KeptUnique : Resource × List Resource → Type 0
KeptUnique kept = IsUnique kept.1

abbrev pub GotUnique : Got → Type 0
GotUnique got = IsUnique got.1

keep_created-IsUnique :
    (kind : String) (made : Resource) (rs : List Resource)
    → made.kind ≡ kind
    → IsUnique rs
    → IsUnique (keep_created kind made rs).1
unfolding keep_created
keep_created-IsUnique kind made rs same h =
    let inner : Resource × List Resource = elim (get kind made.incus_name true rs) [
      | some existing ↦ (existing, rs)
      | none ↦ (made, add made rs)
    ] in
    option_split KeptUnique (get kind made.name false rs) inner (λ existing. (existing, rs))
      (λ by_name.
        option_split KeptUnique (get kind made.incus_name true rs) (made, add made rs)
          (λ existing. (existing, rs))
          (λ by_incus.
            add-IsUnique made rs (ap (λ k. get k made.name false rs) same ∙ by_name)
              (ap (λ k. get k made.incus_name true rs) same ∙ by_incus) h)
          (λ existing found. h))
      (λ existing found. h)

created-IsUnique :
    (kind : String) (made : Option Resource) (rs : List Resource)
    → ((m : Resource) → made ≡ some m → m.kind ≡ kind)
    → IsUnique rs
    → IsUnique (created kind made rs).1
unfolding created
created-IsUnique kind none rs same h = h
created-IsUnique kind (some made) rs same h = keep_created-IsUnique kind made rs (same made refl) h

pub get_or_create-IsUnique :
    (kind name : String) (made : Option Resource) (rs : List Resource)
    → ((m : Resource) → made ≡ some m → m.kind ≡ kind)
    → IsUnique rs
    → IsUnique (get_or_create kind name made rs).1
unfolding get_or_create
get_or_create-IsUnique kind name made rs same h =
    let inner : Got = elim (get kind name true rs) [
      | some res ↦ (some res, rs)
      | none ↦ created kind made rs
    ] in
    option_split GotUnique (get kind name false rs) inner (λ res. (some res, rs))
      (λ by_name.
        option_split GotUnique (get kind name true rs) (created kind made rs)
          (λ res. (some res, rs)) (λ by_incus. created-IsUnique kind made rs same h)
          (λ res found. h))
      (λ res found. h)
