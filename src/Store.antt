-- ===== src/Store.antt =====
-- The resources that a client holds: `ResourceStore` of client/resource.go. Each of its methods holds
-- the store's lock from end to end, so a run is a sequence of them. A resource is known by a number,
-- its pointer; nil resources are left out, which nothing puts in.
use incus_compose.Prelude.{
  ℕ, Bool, true, false, ◌&&◌, Option, none, some, String, List, [], ◌∷◌, ◌++◌, str_eq,
  if◌then◌else◌, delete_func,
}
mod Lookup
mod Unique
mod Tests

pub record Resource : Type 0 where
  pub id : ℕ
  pub kind : String
  pub name : String
  pub incus_name : String

-- The test of `getLocked`, by name or by the name in Incus.
abbrev pub named : String → String → Bool → Resource → Bool
named kind name incus r =
    str_eq r.kind kind && (if incus then str_eq r.incus_name name else str_eq r.name name)

abbrev pub find : (Resource → Bool) → List Resource → Option Resource
find p [] = none
find p (r ∷ rs) = if p r then some r else find p rs

-- `getLocked`, and `Get` with it
unfoldable pub get : String → String → Bool → List Resource → Option Resource
get kind name incus rs = find (named kind name incus) rs

-- `Add`
unfoldable pub add : Resource → List Resource → List Resource
add r rs = rs ++ r ∷ []

-- `Remove`
unfoldable pub remove : Resource → List Resource → List Resource
remove r rs = delete_func (named r.kind r.incus_name true) rs

-- What `create` made is kept, unless the store holds one of its names.
unfoldable pub keep_created : String → Resource → List Resource → Resource × List Resource
keep_created kind made rs = elim (get kind made.name false rs) [
  | some existing ↦ (existing, rs)
  | none ↦ elim (get kind made.incus_name true rs) [
    | some existing ↦ (existing, rs)
    | none ↦ (made, add made rs)
  ]
]

-- The resource that is returned, `none` for an error, and the store.
abbrev pub Got : Type 0
Got = Option Resource × List Resource

unfoldable pub created : String → Option Resource → List Resource → Got
created kind none rs = (none, rs)
created kind (some made) rs = let kept = keep_created kind made rs in (some kept.0, kept.1)

-- `GetOrCreate`, where `create` would return `made`.
unfoldable pub get_or_create : String → String → Option Resource → List Resource → Got
get_or_create kind name made rs = elim (get kind name false rs) [
  | some res ↦ (some res, rs)
  | none ↦ elim (get kind name true rs) [ some res ↦ (some res, rs) | none ↦ created kind made rs ]
]
