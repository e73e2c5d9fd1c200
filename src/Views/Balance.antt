-- ===== src/Views/Balance.antt =====
-- An instance that goes takes off exactly the claims that it made (cmd/ic-dns/dns/state.go).
use incus_compose.Prelude.{
  ℕ, ◌+◌, ◌-◌, ◌≤◌, ◌≡◌, true, false, ◌&&◌, not, ltb, Option, none, some, if_split, str_eq,
  str_eq_iff, refl, ap, ◌∙◌, Bool, String, List, [], ◌∷◌, arith, if◌then◌else◌,
}
use incus_compose.Prelude.Dict.{Dict, lookup, insert, delete}
use incus_compose.Views.{
  Nets, over_of, count_of, drop_over, view_of, claims, claim_one, claim, claim_each, view, drop,
  is_nil, release_each, release,
}
use incus_compose.Views.Claims.{hits, claims-claim_one, claims-drop, claims-swept}

-- The claims of a list of networks on one view, and on the anonymous views of each.
abbrev pub own_hits : List String → String → String → String → ℕ
own_hits [] id k v = 0
own_hits (key ∷ keys) id k v = hits key id k v + own_hits keys id k v

abbrev pub anon_hits : List String → String → String → ℕ
anon_hits [] k v = 0
anon_hits (key ∷ keys) k v = hits key key k v + anon_hits keys k v

claims-claim :
    (keys : List String) (id k v : String) (nets : Nets)
    → claims (claim keys id nets).1 k v ≡ claims nets k v + own_hits keys id k v
unfolding claim
claims-claim [] id k v nets = omega arith
claims-claim (key ∷ keys) id k v nets =
    omega
      (arith, claims-claim keys id k v (claim_one key id nets), claims-claim_one key id k v nets)

claims-claim_each :
    (own : String) (keys : List String) (k v : String) (nets : Nets)
    → claims (claim_each own keys nets).1 k v ≡ claims nets k v + anon_hits keys k v
unfolding claim_each
claims-claim_each own [] k v nets = omega arith
claims-claim_each own (key ∷ keys) k v nets = omega (
  arith,
  claims-claim_each own keys k v (claim (key ∷ []) key nets).1,
  claims-claim (key ∷ []) key k v nets,
)

claims-release_each :
    (own : String) (keys : List String) (k v : String) (nets : Nets)
    → claims (release_each own keys nets).1 k v
      ≡ claims nets k v - (own_hits keys own k v + anon_hits keys k v)
unfolding release_each
claims-release_each own [] k v nets = omega arith
claims-release_each own (key ∷ keys) k v nets =
    let once = (drop key own nets).1 in
    let twice = (drop key key once).1 in
    let swept = if is_nil (over_of (lookup key twice)) then delete key twice else twice in
    omega (
      arith,
      claims-release_each own keys k v swept,
      claims-swept key k v twice,
      claims-drop key key k v once,
      claims-drop key own k v nets,
    )

-- Whatever views there are and whatever networks an instance is on: once it has come and gone,
-- every view has as many claims over every network as before.
pub release-view :
    (keys : List String) (nets : Nets) (k v : String)
    → claims (release keys (view keys nets).1).1 k v ≡ claims nets k v
unfolding release view
release-view keys nets k v =
    let own = view_of keys in
    let next = (claim keys own nets).1 in
    omega (
      arith,
      claims-release_each own keys k v (claim_each own keys next).1,
      claims-claim_each own keys k v next,
      claims-claim keys own k v nets,
    )

drop_over-kept :
    (key id : String) (nets : Nets) (o : Option (Dict ℕ))
    → lookup key nets ≡ o
    → 2 ≤ claims nets key id
    → (drop_over key id nets o).0 ≡ false
unfolding drop_over lookup claims
drop_over-kept key id nets none e many = refl
drop_over-kept key id nets (some over) e many =
    let at : claims nets key id ≡ count_of (lookup id over) =
      ap (λ o. count_of (lookup id (over_of o))) e in
    let left : ℕ = count_of (lookup id over) - 1 in
    if_split (λ (r : Bool × Nets). r.0 ≡ false) (ltb 0 left)
      (false, insert key (insert id left over) nets) (true, insert key (delete id over) nets)
      (λ _. refl) (λ none_left. absurd (ground (arith, none_left, at, many)))

none_reported :
    (k : String) (a b s : Bool)
    → a ≡ false
    → s ≡ true
    → (if a then k ∷ (if b && not s then k ∷ [] else []) else (if b && not s then k ∷ [] else []))
      ≡ []
none_reported k true b s ha hs = cc ha
none_reported k false true true ha hs = refl
none_reported k false false true ha hs = refl
none_reported k false b false ha hs = cc hs

-- Where a network has no claim on its own view, and an instance comes that is on this network only
-- and goes again, the view is left with no claim and is not among those reported gone.
pub release-lone :
    (k : String) (nets : Nets)
    → claims nets k k ≡ 0
    → ((release (k ∷ []) (view (k ∷ []) nets).1).0.1 ≡ [])
      × (claims (release (k ∷ []) (view (k ∷ []) nets).1).1 k k ≡ 0)
unfolding release view release_each view_of drop
release-lone k nets none_yet =
    let after = (view (k ∷ []) nets).1 in
    let same : str_eq k k ≡ true = (str_eq_iff k k).1 refl in
    let one : hits k k k k ≡ 1 = ap (λ b. if b && b then 1 else 0) same in
    let next = (claim (k ∷ []) k nets).1 in
    let two : 2 ≤ claims after k k =
      omega (arith, claims-claim_each k (k ∷ []) k k next, claims-claim (k ∷ []) k k k nets, one) in
    let kept : (drop_over k k after (lookup k after)).0 ≡ false =
      drop_over-kept k k after (lookup k after) refl two in
    (none_reported k _ _ (str_eq k k) kept same, release-view (k ∷ []) nets k k ∙ none_yet)
