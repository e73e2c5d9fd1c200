-- ===== src/Placement/Order.antt =====
-- `orderClusterMembers` and `memberSpreadValue` of project/placement.go. A map of buckets lists its
-- entries in the order of `bucketOrder`, which is the order in which they were first put.
use Prim.Native.Nat.{Ordering}
use incus_compose.Prelude.{
  ℕ, zero, suc, Bool, true, false, not, ◌&&◌, ◌||◌, none, some, String, List, [], ◌∷◌, ◌++◌, str_eq,
  str_compare, if◌then◌else◌, has_prefix, trim_space, length, ltb, leb,
}
use incus_compose.Prelude.Dict.{Dict, lookup, insert}
use incus_compose.Placement.{Member, user_label}

abbrev pub text_before : String → String → Bool
text_before a b = elim (str_compare a b) [ Ordering.lt ↦ true | _ ↦ false ]

-- The comparison that the sort is given is negative.
unfoldable pub ahead : String → Member → Member → Bool
ahead preferred a b =
    let a_is = str_eq a.server_name preferred in
    let b_is = str_eq b.server_name preferred in
    if a_is && not b_is
    then true
    else if b_is && not a_is
    then false
    else text_before a.server_name b.server_name

unfoldable pub insert_member : String → Member → List Member → List Member
insert_member preferred m [] = m ∷ []
insert_member preferred m (x ∷ xs) =
    let rest = insert_member preferred m xs in if ahead preferred x m then x ∷ rest else m ∷ x ∷ xs

-- `slices.SortFunc`; the names of a cluster's members differ, so that one order is sorted.
unfoldable pub sort_members : String → List Member → List Member
sort_members preferred [] = []
sort_members preferred (m ∷ ms) = insert_member preferred m (sort_members preferred ms)

-- `memberSpreadValue`
unfoldable pub member_spread_value : Member → String → String
member_spread_value m key =
    if str_eq key "node.failure_domain"
    then m.failure_domain
    else if str_eq key "node.hostname" || str_eq key "node.id"
    then m.server_name
    else if str_eq key "node.group"
    then elim m.groups [ [] ↦ "" | group ∷ more ↦ group ]
    else if has_prefix key "node.labels."
    then user_label m key
    else m.server_name

abbrev pub bucket : Dict (List Member) → String → List Member
bucket buckets val = elim (lookup val buckets) [ none ↦ [] | some ms ↦ ms ]

-- The loop that fills the buckets.
unfoldable pub fill_buckets : String → List Member → Dict (List Member) → Dict (List Member)
fill_buckets key [] buckets = buckets
fill_buckets key (m ∷ ms) buckets =
    let val = member_spread_value m key in
    fill_buckets key ms (insert val (bucket buckets val ++ m ∷ []) buckets)

-- What one pass over the buckets appends, and what it leaves in them.
abbrev pub heads : Dict (List Member) → List Member
heads [] = []
heads ((val, []) ∷ bs) = heads bs
heads ((val, m ∷ ms) ∷ bs) = m ∷ heads bs

abbrev pub tails : Dict (List Member) → Dict (List Member)
tails [] = []
tails ((val, []) ∷ bs) = (val, []) ∷ tails bs
tails ((val, m ∷ ms) ∷ bs) = (val, ms) ∷ tails bs

-- `for len(out) < len(sorted)`, on fuel.
unfoldable pub deal : ℕ → ℕ → List Member → Dict (List Member) → List Member
deal zero total out buckets = out
deal (suc fuel) total out buckets =
    let more = deal fuel total (out ++ heads buckets) (tails buckets) in
    if ltb (length out) total then more else out

abbrev pub each_bucket : (List Member → List Member) → Dict (List Member) → Dict (List Member)
each_bucket f [] = []
each_bucket f ((val, ms) ∷ bs) = (val, f ms) ∷ each_bucket f bs

-- `orderClusterMembers`; a pass over the buckets appends at least one member.
unfoldable pub order_members : String → List String → List Member → List Member
order_members preferred [] candidates = sort_members preferred candidates
order_members preferred (spread ∷ rest) candidates =
    let sorted = sort_members preferred candidates in
    let key = trim_space spread in
    let skipped = order_members preferred rest sorted in
    let buckets = fill_buckets key sorted [] in
    let ordered = each_bucket (λ ms. order_members preferred rest ms) buckets in
    let inner : Dict (List Member) = elim rest [ [] ↦ buckets | next ∷ more ↦ ordered ] in
    if leb (length sorted) 1
    then sorted
    else if str_eq key ""
    then skipped
    else deal (length sorted) (length sorted) [] inner
