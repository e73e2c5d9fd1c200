-- ===== src/Placement/Deal.antt =====
-- Putting the members of a cluster in order loses and repeats none of them
-- (`orderClusterMembers` of project/placement.go), and the deal from the buckets ends.
use incus_compose.Prelude.{
  ℕ, zero, suc, ◌+◌, ◌≤◌, ◌≡◌, refl, sym, ◌∙◌, Bool, true, false, String, List, [], ◌∷◌, ◌++◌,
  arith, str_eq, if◌then◌else◌, if_both, if_split, ◌≢◌, length, length-append, count_if,
  count_if-append, count_if_all, trim_space, ltb, leb,
}
use incus_compose.Prelude.Dict.{Dict, lookup, insert}
use incus_compose.Placement.{Member}
use incus_compose.Placement.Order.{
  ahead, insert_member, sort_members, member_spread_value, bucket, fill_buckets, heads, tails, deal,
  each_bucket, order_members,
}

-- The members that all the buckets hold.
abbrev pub size : Dict (List Member) → ℕ
size [] = 0
size ((val, ms) ∷ bs) = length ms + size bs

heads-size : (bs : Dict (List Member)) → length (heads bs) ≡ 0 → size bs ≡ 0
heads-size [] h = refl
heads-size ((val, []) ∷ bs) h = omega (arith, heads-size bs h)
heads-size ((val, m ∷ ms) ∷ bs) h = absurd (omega arith)

size-tails : (bs : Dict (List Member)) → length (heads bs) + size (tails bs) ≡ size bs
size-tails [] = omega arith
size-tails ((val, []) ∷ bs) = omega (arith, size-tails bs)
size-tails ((val, m ∷ ms) ∷ bs) = omega (arith, size-tails bs)

module _ (p : Member → Bool) where
  -- The members of the buckets that pass a test.
  abbrev pub held : Dict (List Member) → ℕ
  held [] = 0
  held ((val, ms) ∷ bs) = count_if p ms + held bs

  insert_member-count :
      (preferred : String) (m : Member) (xs : List Member)
      → count_if p (insert_member preferred m xs) ≡ count_if p (m ∷ xs)
  unfolding insert_member
  insert_member-count preferred m [] = refl
  insert_member-count preferred m (x ∷ xs) =
      if_both (λ l. count_if p l ≡ count_if p (m ∷ x ∷ xs)) (ahead preferred x m)
        (x ∷ insert_member preferred m xs) (m ∷ x ∷ xs)
        (ground (arith, insert_member-count preferred m xs)) refl

  pub sort_members-count :
      (preferred : String) (ms : List Member)
      → count_if p (sort_members preferred ms) ≡ count_if p ms
  unfolding sort_members
  sort_members-count preferred [] = refl
  sort_members-count preferred (m ∷ ms) =
      insert_member-count preferred m (sort_members preferred ms)
      ∙ ground (arith, sort_members-count preferred ms)

  held-insert :
      (val : String) (ms : List Member) (bs : Dict (List Member))
      → held (insert val ms bs) + count_if p (bucket bs val) ≡ count_if p ms + held bs
  unfolding insert lookup
  held-insert val ms [] = omega arith
  held-insert val ms ((found, old) ∷ bs) = ground (arith, held-insert val ms bs)

  fill_buckets-held :
      (key : String) (ms : List Member) (bs : Dict (List Member))
      → held (fill_buckets key ms bs) ≡ count_if p ms + held bs
  unfolding fill_buckets
  fill_buckets-held key [] bs = omega arith
  fill_buckets-held key (m ∷ ms) bs =
      let val = member_spread_value m key in
      let longer = bucket bs val ++ m ∷ [] in
      fill_buckets-held key ms (insert val longer bs)
      ∙ ground (arith, held-insert val longer bs, count_if-append p (bucket bs val) (m ∷ []))

  held-tails : (bs : Dict (List Member)) → count_if p (heads bs) + held (tails bs) ≡ held bs
  held-tails [] = omega arith
  held-tails ((val, []) ∷ bs) = omega (arith, held-tails bs)
  held-tails ((val, m ∷ ms) ∷ bs) = ground (arith, held-tails bs)

  held-size : (bs : Dict (List Member)) → size bs ≡ 0 → held bs ≡ 0
  held-size [] h = refl
  held-size ((val, []) ∷ bs) h = omega (arith, held-size bs (omega arith))
  held-size ((val, m ∷ ms) ∷ bs) h = absurd (omega arith)

  deal-count :
      (fuel total : ℕ) (out : List Member) (bs : Dict (List Member))
      → length out + size bs ≡ total
      → total ≤ fuel + length out
      → count_if p (deal fuel total out bs) ≡ count_if p out + held bs
  unfolding deal
  deal-count zero total out bs sum enough = ground (arith, held-size bs (omega arith))
  deal-count (suc fuel) total out bs sum enough =
      let more = deal fuel total (out ++ heads bs) (tails bs) in
      if_split (λ l. count_if p l ≡ count_if p out + held bs) (ltb (length out) total) more out
        (λ short.
          let pass = size-tails bs in
          let longer = length-append out (heads bs) in
          let moves : length (heads bs) ≢ 0 =
            λ empty. let none_left = heads-size bs empty in absurd (ground arith) in
          let sum' : length (out ++ heads bs) + size (tails bs) ≡ total = omega arith in
          let enough' : total ≤ fuel + length (out ++ heads bs) = ground arith in
          deal-count fuel total (out ++ heads bs) (tails bs) sum' enough'
          ∙ omega (arith, count_if-append p out (heads bs), held-tails bs))
        (λ full. let empty : size bs ≡ 0 = ground arith in omega (arith, held-size bs empty))

  each_bucket-held :
      (f : List Member → List Member) (bs : Dict (List Member))
      → ((ms : List Member) → count_if p (f ms) ≡ count_if p ms)
      → held (each_bucket f bs) ≡ held bs
  each_bucket-held f [] h = refl
  each_bucket-held f ((val, ms) ∷ bs) h = omega (arith, h ms, each_bucket-held f bs h)

size-held : (bs : Dict (List Member)) → size bs ≡ held (λ m. true) bs
size-held [] = refl
size-held ((val, ms) ∷ bs) = omega (arith, count_if_all ms, size-held bs)

-- The members of one bucket in order, when preferences are left.
inner-held :
    (p : Member → Bool) (preferred : String) (rest : List String) (bs : Dict (List Member))
    → ((ms : List Member) → count_if p (order_members preferred rest ms) ≡ count_if p ms)
    → held p (elim rest as (λ r. Dict (List Member)) [
      | [] ↦ bs
      | next ∷ more ↦ each_bucket (λ ms. order_members preferred rest ms) bs
    ])
      ≡ held p bs
inner-held p preferred [] bs h = refl
inner-held p preferred (next ∷ more) bs h =
    each_bucket-held p (λ ms. order_members preferred (next ∷ more) ms) bs h

-- The deal from buckets that hold a list's members has the list's members.
deal_of_sorted :
    (p : Member → Bool) (sorted : List Member) (bs : Dict (List Member))
    → ((q : Member → Bool) → held q bs ≡ count_if q sorted)
    → count_if p (deal (length sorted) (length sorted) [] bs) ≡ count_if p sorted
deal_of_sorted p sorted bs h =
    deal-count p (length sorted) (length sorted) [] bs
      (omega (arith, size-held bs, h (λ m. true), count_if_all sorted)) (omega arith)
    ∙ omega (arith, h p)

-- The three ends of a call, on the sorted candidates.
order_step :
    (p : Member → Bool) (small unnamed : Bool) (sorted skipped : List Member)
    (inner : Dict (List Member))
    → count_if p skipped ≡ count_if p sorted
    → ((q : Member → Bool) → held q inner ≡ count_if q sorted)
    → count_if p (
        if small
        then sorted
        else if unnamed
        then skipped
        else deal (length sorted) (length sorted) [] inner)
      ≡ count_if p sorted
order_step p true unnamed sorted skipped inner hs hi = refl
order_step p false true sorted skipped inner hs hi = hs
order_step p false false sorted skipped inner hs hi = deal_of_sorted p sorted inner hi

-- Whatever the preferences, the members in order are the candidates, each as often: for every test,
-- as many of them pass it, so the loop that deals from the buckets ends with none lost or repeated.
pub order_members-count :
    (p : Member → Bool) (preferred : String) (preferences : List String) (candidates : List Member)
    → count_if p (order_members preferred preferences candidates) ≡ count_if p candidates
unfolding order_members
order_members-count p preferred [] candidates = sort_members-count p preferred candidates
order_members-count p preferred (spread ∷ rest) candidates =
    let sorted = sort_members preferred candidates in
    let bs = fill_buckets (trim_space spread) sorted [] in
    order_step p (leb (length sorted) 1) (str_eq (trim_space spread) "") sorted
      (order_members preferred rest sorted)
      (elim rest as (λ r. Dict (List Member)) [
        | [] ↦ bs
        | next ∷ more ↦ each_bucket (λ ms. order_members preferred rest ms) bs
      ])
      (order_members-count p preferred rest sorted)
      (λ q.
        inner-held q preferred rest bs (λ ms. order_members-count q preferred rest ms)
        ∙ fill_buckets-held q (trim_space spread) sorted []
        ∙ omega arith)
    ∙ sort_members-count p preferred candidates

pub length-order_members :
    (preferred : String) (preferences : List String) (candidates : List Member)
    → length (order_members preferred preferences candidates) ≡ length candidates
length-order_members preferred preferences candidates =
    sym (count_if_all (order_members preferred preferences candidates))
    ∙ order_members-count (λ m. true) preferred preferences candidates
    ∙ count_if_all candidates
