-- ===== src/Enricher/Fleet/Accounts.antt =====
-- Every interface of a read is accounted for: `interfaces` of ievent/enricher/state.go.
use incus_compose.Prelude.{
  ◌≡◌, refl, subst, ◌⊎◌, inl, inr, Bool, true, false, Option, none, some, String, List, [], ◌∷◌,
  ◌++◌, if_both, In, In-last, In-append_left, In-append_cases,
}
use incus_compose.Prelude.Dict.{Dict, insert}
use incus_compose.Enricher.Fleet.{Network, Interface, Fleet, before, network}
use incus_compose.Enricher.Fleet.Devices.{Readings, Nic, Index, named_network, is_unplaced, seat}
use incus_compose.Enricher.Fleet.Placing.{
  Turn, skipped, unknown, sits, met, Placement, stuck, whole, key_of, insert_interface, sorted,
  turn, place_all,
}

In-insert_interface :
    (x i : Interface) (is : List Interface) → In x (i ∷ is) → In x (insert_interface i is)
unfolding insert_interface
In-insert_interface x i [] h = h
In-insert_interface x i (y ∷ ys) h =
    if_both (In x) (before (key_of y) (key_of i)) (y ∷ insert_interface i ys) (i ∷ y ∷ ys)
      (elim h [
        | inl same ↦ inr (In-insert_interface x i ys (inl same))
        | inr (inl first) ↦ inl first
        | inr (inr more) ↦ inr (In-insert_interface x i ys (inr more))
      ])
      h

In-of_insert_interface :
    (x i : Interface) (is : List Interface) → In x (insert_interface i is) → In x (i ∷ is)
unfolding insert_interface
In-of_insert_interface x i [] h = h
In-of_insert_interface x i (y ∷ ys) h =
    if_both (λ l. In x l → In x (i ∷ y ∷ ys)) (before (key_of y) (key_of i))
      (y ∷ insert_interface i ys) (i ∷ y ∷ ys)
      (λ there. elim there [
        | inl first ↦ inr (inl first)
        | inr more ↦ elim (In-of_insert_interface x i ys more) [
          | inl same ↦ inl same
          | inr later ↦ inr (inr later)
        ]
      ])
      (λ there. there) h

In-sorted : (x : Interface) (is : List Interface) → In x is → In x (sorted is)
unfolding sorted
In-sorted x [] h = h
In-sorted x (i ∷ is) (inl same) = In-insert_interface x i (sorted is) (inl same)
In-sorted x (i ∷ is) (inr more) = In-insert_interface x i (sorted is) (inr (In-sorted x is more))

In-of_sorted : (x : Interface) (is : List Interface) → In x (sorted is) → In x is
unfolding sorted
In-of_sorted x [] h = h
In-of_sorted x (i ∷ is) h = elim (In-of_insert_interface x i (sorted is) h) [
  | inl same ↦ inl same
  | inr more ↦ inr (In-of_sorted x is more)
]

module _ (r : Readings) (s : Fleet) (project : String) (devices : Dict (Dict String))
    (index : Index) where
  -- What one interface of the state names does not resolve.
  pub record IsLost (missing ifname : String) (iface : Nic) : Type 0 where
    pub placeable : is_unplaced r devices index ifname iface ≡ false
    pub named : named_network r devices index ifname iface ≡ missing
    pub unresolved : network s project missing ≡ none

  -- One interface of the state sits as `i` on the network that it names.
  pub record IsSeat (i : Interface) (w : Network) (ifname : String) (iface : Nic) : Type 0 where
    pub owner : String
    pub placeable : is_unplaced r devices index ifname iface ≡ false
    pub resolved : network s project (named_network r devices index ifname iface) ≡ some (w, owner)
    pub placed : seat r devices index ifname iface w owner ≡ i

  abbrev pub SomeLost : String → Dict Nic → Type 0
  SomeLost missing [] = ⊥
  SomeLost missing ((ifname, iface) ∷ more) = IsLost missing ifname iface ⊎ SomeLost missing more

  abbrev pub SomeSeat : Interface → Dict Nic → Type 0
  SomeSeat i [] = ⊥
  SomeSeat i ((ifname, iface) ∷ more) = ((w : Network) × IsSeat i w ifname iface) ⊎ SomeSeat i more

  -- Each is passed over, or sits as one of these.
  abbrev pub AllSeated : List Interface → Dict Nic → Type 0
  AllSeated is [] = Unit
  AllSeated is ((ifname, iface) ∷ more) =
      ((is_unplaced r devices index ifname iface ≡ true)
        ⊎ ((i : Interface) × (w : Network) × IsSeat i w ifname iface × In i is))
      × AllSeated is more

  abbrev Says : String → Nic → Turn → Type 0
  Says ifname iface skipped = is_unplaced r devices index ifname iface ≡ true
  Says ifname iface (unknown missing) = IsLost missing ifname iface
  Says ifname iface (sits i w) = IsSeat i w ifname iface

  turn-Says :
      (ifname : String) (iface : Nic)
      → Says ifname iface (turn r s project devices index ifname iface)
  unfolding turn
  turn-Says ifname iface = looked _ (network s project _) refl refl
    where
      looked :
          (idle : Bool) (o : Option (Network × String))
          → is_unplaced r devices index ifname iface ≡ idle
          → network s project (named_network r devices index ifname iface) ≡ o
          → Says ifname iface (
              met idle
                (named_network r devices index ifname iface)
                o
                (seat r devices index ifname iface))
      looked true o e found = e
      looked false none e found = record { placeable = e; named = refl; unresolved = found }
      looked false (some (w, owner)) e found = record {
        owner = owner;
        placeable = e;
        resolved = found;
        placed = refl;
      }

  -- What a placement says of the interfaces that are still to come, after some were found.
  abbrev pub Accounts : List Interface → Dict Nic → Placement → Type 0
  Accounts found nics (stuck missing) = SomeLost missing nics
  Accounts found nics (whole is networks) =
      ((i : Interface) → In i found → In i is)
      × AllSeated is nics
      × ((i : Interface) → In i is → In i found ⊎ SomeSeat i nics)

  one_more :
      (found : List Interface) (ifname : String) (iface : Nic) (more : Dict Nic) (t : Turn)
      (k : List Interface → Dict Network → Placement) (networks : Dict Network)
      → Says ifname iface t
      → ((is : List Interface) (ws : Dict Network) → Accounts is more (k is ws))
      → Accounts found ((ifname, iface) ∷ more) (elim t as (λ x. Placement) [
        | skipped ↦ k found networks
        | unknown missing ↦ stuck missing
        | sits i w ↦ k (found ++ i ∷ []) (insert (key_of i) w networks)
      ])
  one_more found ifname iface more skipped k networks says rest =
      passed (k found networks) (rest found networks)
    where
      passed : (p : Placement) → Accounts found more p → Accounts found ((ifname, iface) ∷ more) p
      passed (stuck missing) h = inr h
      passed (whole is ws) (kept, seated, known) = (
        kept,
        (inl says, seated),
        λ i here. elim (known i here) [ inl old ↦ inl old | inr later ↦ inr (inr later) ],
      )
  one_more found ifname iface more (unknown missing) k networks says rest = inl says
  one_more found ifname iface more (sits i w) k networks says rest =
      placed (k (found ++ i ∷ []) (insert (key_of i) w networks))
        (rest (found ++ i ∷ []) (insert (key_of i) w networks))
    where
      placed :
          (p : Placement)
          → Accounts (found ++ i ∷ []) more p
          → Accounts found ((ifname, iface) ∷ more) p
      placed (stuck missing) h = inr h
      placed (whole is ws) (kept, seated, known) = (
        λ x old. kept x (In-append_left x found (i ∷ []) old),
        (inr (i, w, says, kept i (In-last i found)), seated),
        λ x here. elim (known x here) [
          | inr later ↦ inr (inr later)
          | inl old ↦ elim (In-append_cases x found (i ∷ []) old) [
            | inl earlier ↦ inl earlier
            | inr (inl same) ↦ inr (inl (w, subst (λ y. IsSeat y w ifname iface) same says))
            | inr (inr beyond) ↦ absurd beyond
          ]
        ],
      )

  pub place_all-Accounts :
      (nics : Dict Nic) (found : List Interface) (networks : Dict Network)
      → Accounts found nics (place_all r s project devices index nics found networks)
  unfolding place_all
  place_all-Accounts [] found networks =
      (λ i h. In-sorted i found h, tt, λ i h. inl (In-of_sorted i found h))
  place_all-Accounts ((ifname, iface) ∷ more) found networks =
      one_more found ifname iface more (turn r s project devices index ifname iface)
        (place_all r s project devices index more) networks (turn-Says ifname iface)
        (place_all-Accounts more)
