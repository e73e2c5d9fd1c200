-- ===== src/Enricher/Fleet/Placed.antt =====
-- What comes of placing an instance that is read: `setInstance` of ievent/enricher/state.go.
use incus_compose.Prelude.{
  In, inl, inr, ◌≡◌, refl, Option, none, some, String, List, [], ◌∷◌, ◌++◌, arith, str_eq,
  str_eq_iff, Bool-cases, if_both, inl, inr,
}
use incus_compose.Prelude.Dict.{Dict, lookup, insert, lookup-insert}
use incus_compose.Enricher.Fleet.{Network, Interface, Fleet, before, held_instance, project_of}
use incus_compose.Enricher.Fleet.Accounts.{
  Accounts, AllSeated, SomeLost, SomeSeat, place_all-Accounts,
}
use incus_compose.Enricher.Fleet.Devices.{or_else, nic_index, Readings, Nic, Inst, Index}
use incus_compose.Enricher.Fleet.Placing.{
  Turn, skipped, unknown, sits, kept, cut, Placement, stuck, whole, key_of, insert_interface,
  sorted, turn, place_all, interfaces, Outcome, refused, stored, set_instance,
}

-- Every interface has the network it names carried with it.
unfoldable pub Carried : List Interface → Dict Network → Type 0
Carried [] networks = Unit
Carried (i ∷ is) networks =
    ((w : Network) × (lookup (key_of i) networks ≡ some w)) × Carried is networks

Carried-insert_interface :
    (i : Interface) (is : List Interface) (networks : Dict Network)
    → Carried (i ∷ is) networks
    → Carried (insert_interface i is) networks
unfolding Carried insert_interface
Carried-insert_interface i [] networks c = c
Carried-insert_interface i (x ∷ xs) networks (ci, (cx, cs)) =
    if_both (λ l. Carried l networks) (before (key_of x) (key_of i)) (x ∷ insert_interface i xs)
      (i ∷ x ∷ xs) (cx, Carried-insert_interface i xs networks (ci, cs)) (ci, (cx, cs))

Carried-sorted :
    (is : List Interface) (networks : Dict Network)
    → Carried is networks
    → Carried (sorted is) networks
unfolding Carried sorted
Carried-sorted [] networks c = c
Carried-sorted (i ∷ is) networks (ci, cs) =
    Carried-insert_interface i (sorted is) networks (ci, Carried-sorted is networks cs)

-- A network more is carried for one interface more.
Carried-added :
    (is : List Interface) (networks : Dict Network) (i : Interface) (w : Network)
    → Carried is networks
    → Carried (is ++ i ∷ []) (insert (key_of i) w networks)
unfolding Carried
Carried-added [] networks i w c = (
  (
    w,
    ground
        (arith, lookup-insert (key_of i) (key_of i) w networks, str_eq_iff (key_of i) (key_of i)),
  ),
  tt,
)
Carried-added (x ∷ xs) networks i w ((v, held), cs) = (
  elim (Bool-cases (str_eq (key_of i) (key_of x))) [
    | inl same ↦ (w, ground (arith, lookup-insert (key_of i) (key_of x) w networks, same))
    | inr other ↦ (v, ground (arith, lookup-insert (key_of i) (key_of x) w networks, other, held))
  ],
  Carried-added xs networks i w cs,
)

-- Where a placement ends whole, every interface has its network carried with it.
unfoldable pub Stands : Placement → Type 0
Stands (stuck missing) = Unit
Stands (whole found networks) = Carried found networks

module _ (r : Readings) where
  turns_on :
      (t : Turn) (found : List Interface) (networks : Dict Network)
      (k : List Interface → Dict Network → Placement)
      → Carried found networks
      → ((is : List Interface) (ws : Dict Network) → Carried is ws → Stands (k is ws))
      → Stands (elim t as (λ x. Placement) [
        | skipped ↦ k found networks
        | unknown missing ↦ stuck missing
        | sits i w ↦ k (found ++ i ∷ []) (insert (key_of i) w networks)
      ])
  unfolding Stands
  turns_on skipped found networks k c rest = rest found networks c
  turns_on (unknown missing) found networks k c rest = tt
  turns_on (sits i w) found networks k c rest =
      rest (found ++ i ∷ []) (insert (key_of i) w networks) (Carried-added found networks i w c)

  place_all-Stands :
      (s : Fleet) (project : String) (devices : Dict (Dict String)) (index : Index)
      (nics : Dict Nic) (found : List Interface) (networks : Dict Network)
      → Carried found networks
      → Stands (place_all r s project devices index nics found networks)
  unfolding place_all Stands
  place_all-Stands s project devices index [] found networks c = Carried-sorted found networks c
  place_all-Stands s project devices index ((ifname, iface) ∷ more) found networks c =
      turns_on (turn r s project devices index ifname iface) found networks
        (place_all r s project devices index more) c (place_all-Stands s project devices index more)

  interfaces-Stands :
      (s : Fleet) (inst : Inst) (nics : Option (Dict Nic)) → Stands (interfaces r s inst nics)
  unfolding interfaces Stands Carried
  interfaces-Stands s inst none = tt
  interfaces-Stands s inst (some nics) = place_all-Stands s inst.project _ _ nics [] [] tt

module _ (r : Readings) (inst : Inst) (nics : Option (Dict Nic)) (s : Fleet) where
  abbrev pub devices_of : Dict (Dict String)
  devices_of = or_else inst.expanded_devices inst.devices

  abbrev pub nics_of : Dict Nic
  nics_of = elim nics [ none ↦ [] | some all ↦ all ]

  interfaces-Accounts :
      Accounts r s inst.project devices_of
        (nic_index r inst devices_of)
        []
        nics_of
        (interfaces r s inst nics)
  unfolding interfaces
  interfaces-Accounts = by_state nics
    where
      by_state :
          (given : Option (Dict Nic))
          → Accounts r s inst.project devices_of
              (nic_index r inst devices_of)
              []
              (elim given [ none ↦ [] | some all ↦ all ])
              (interfaces r s inst given)
      by_state none = (λ i h. h, tt, λ i h. inl h)
      by_state (some all) =
          place_all-Accounts r s inst.project devices_of (nic_index r inst devices_of) all [] []

  -- What a read leaves: nothing stored, for an interface whose network does not resolve, or an
  -- instance on the networks that its interfaces name, and on no others.
  unfoldable pub Settled : Outcome × Fleet → Type 0
  Settled (refused missing, after) =
      SomeLost r s inst.project devices_of (nic_index r inst devices_of) missing nics_of
      × (after.projects ≡ s.projects)
  Settled (stored i, after) =
      (held_instance after inst.project inst.name ≡ some i)
      × Carried i.interfaces i.networks
      × AllSeated r s inst.project devices_of (nic_index r inst devices_of) i.interfaces nics_of
      × ((x : Interface)
          → In x i.interfaces
          → SomeSeat r s inst.project devices_of (nic_index r inst devices_of) x nics_of)

  kept-Settled :
      (p : Placement)
      → Stands p
      → Accounts r s inst.project devices_of (nic_index r inst devices_of) [] nics_of p
      → Settled (kept inst s p)
  unfolding kept Settled Stands held_instance
  kept-Settled (stuck missing) stands accounts = (accounts, refl)
  kept-Settled (whole found networks) stands (kept_all, seated, known) =
      let i = cut inst found networks in
      let p = project_of s inst.project in
      let there = lookup-insert inst.name inst.name i p.instances in
      (
        ground (
          arith,
          there,
          lookup-insert inst.project inst.project
              (record p { instances = insert inst.name i p.instances }) s.projects,
          str_eq_iff inst.name inst.name,
          str_eq_iff inst.project inst.project,
        ),
        stands,
        seated,
        λ x here. elim (known x here) [ inl nowhere ↦ absurd nowhere | inr seat ↦ seat ],
      )

  -- A read of an instance is taken in whole or not at all: either setInstance refuses it, for an
  -- interface of the state that is to be placed and whose network, the one it answers, resolves in
  -- neither the project of the instance nor the default project, and leaves every project as it
  -- was; or it stores the instance it answers, where every interface of the state that is to be
  -- placed sits, with its addresses, on the network that its name resolves to, where no other
  -- interface is, and where each has a network carried with it under its key.
  pub set_instance-Settled : Settled (set_instance r inst nics s)
  unfolding set_instance
  set_instance-Settled =
      kept-Settled (interfaces r s inst nics) (interfaces-Stands r s inst nics) interfaces-Accounts
