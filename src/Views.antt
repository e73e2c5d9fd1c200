-- ===== src/Views.antt =====
-- The views of ic-dns (cmd/ic-dns/dns/state.go): which views are over a network, and how many claims
-- keep each alive. An instance is the sorted list of its networks' keys, and a view is named by its
-- networks, joined as `ViewOf` joins them.
pub mod Claims
pub mod Balance
mod Tests
use Prim.Native.String.{◌++◌ as str_append}
use incus_compose.Prelude.{
  ℕ, ◌+◌, ◌-◌, Bool, true, false, not, ◌&&◌, ◌||◌, Option, none, some, String, List, [], ◌∷◌, ltb,
  ◌==◌, str_eq, if◌then◌else◌,
}
use incus_compose.Prelude.Dict.{Dict, lookup, insert, delete}

abbrev pub Nets : Type 0
Nets = Dict (Dict ℕ)

-- `ViewOf` of keys that are sorted, as `netKeys` gives them.
pub view_of : List String → String
view_of [] = ""
view_of (k ∷ []) = k
view_of (k ∷ j ∷ keys) = str_append k (str_append "\0" (view_of (j ∷ keys)))

-- A missing map, and a missing count.
abbrev pub over_of : Option (Dict ℕ) → Dict ℕ
over_of none = []
over_of (some over) = over

abbrev pub count_of : Option ℕ → ℕ
count_of none = 0
count_of (some n) = n

-- The claims on one view over one network.
pub claims : Nets → String → String → ℕ
claims nets key id = count_of (lookup id (over_of (lookup key nets)))

pub claim_one : String → String → Nets → Nets
claim_one key id nets =
    insert key (insert id (claims nets key id + 1) (over_of (lookup key nets))) nets

-- The claim, and whether any of its networks had none on the view.
pub claim : List String → String → Nets → Bool × Nets
claim [] id nets = (false, nets)
claim (key ∷ keys) id nets =
    let (first, after) = claim keys id (claim_one key id nets) in
    (claims nets key id == 0 || first, after)

-- The anonymous view of each network, and those of them that are new.
pub claim_each : String → List String → Nets → List String × Nets
claim_each own [] nets = ([], nets)
claim_each own (key ∷ keys) nets =
    let (first, next) = claim (key ∷ []) key nets in
    let (fresh, after) = claim_each own keys next in
    (if first && not (str_eq key own) then key ∷ fresh else fresh, after)

pub view : List String → Nets → List String × Nets
view keys nets =
    let (first, next) = claim keys (view_of keys) nets in
    let (fresh, after) = claim_each (view_of keys) keys next in
    (if first then view_of keys ∷ fresh else fresh, after)

-- A count of 0 and less is deleted.
pub drop_over : String → String → Nets → Option (Dict ℕ) → Bool × Nets
drop_over key id nets none = (false, nets)
drop_over key id nets (some over) =
    let left = count_of (lookup id over) - 1 in
    if ltb 0 left
    then (false, insert key (insert id left over) nets)
    else (true, insert key (delete id over) nets)

pub drop : String → String → Nets → Bool × Nets
drop key id nets = drop_over key id nets (lookup key nets)

abbrev pub is_nil {ℓ} : {A : Type ℓ} → List A → Bool
is_nil [] = true
is_nil (x ∷ xs) = false

-- The networks left without a view, and the views reported gone.
pub release_each : String → List String → Nets → (List String × List String) × Nets
release_each own [] nets = (([], []), nets)
release_each own (key ∷ keys) nets =
    let (own_gone, once) = drop key own nets in
    let (anon_gone, twice) = drop key key once in
    let empty = is_nil (over_of (lookup key twice)) in
    let ((freed, gone), after) =
      release_each own keys (if empty then delete key twice else twice) in
    let anon = if anon_gone && not (str_eq key own) then key ∷ gone else gone in
    ((if empty then key ∷ freed else freed, if own_gone then own ∷ anon else anon), after)

pub release : List String → Nets → (List String × List String) × Nets
release keys nets = release_each (view_of keys) keys nets
