-- ===== src/Enricher/Fleet/Placing.antt =====
-- Where a read places an instance: `interfaces` and `setInstance` of ievent/enricher/state.go.
use incus_compose.Prelude.{
  Bool, true, false, Option, none, some, String, List, [], ◌∷◌, ◌++◌, str_append, has_prefix,
  if◌then◌else◌,
}
use incus_compose.Prelude.Dict.{Dict, insert}
use incus_compose.Enricher.Fleet.{
  Network, Interface, Instance, Fleet, project_of, put_project, network, before,
}
use incus_compose.Enricher.Fleet.Devices.{
  Readings, Nic, Inst, or_else, Index, nic_index, named_network, is_unplaced, seat,
}

-- What one turn of the loop of `interfaces` comes to.
pub data Turn : Type 0 where
  skipped : Turn
  unknown : String → Turn
  sits : Interface → Network → Turn

-- The network that a NIC names looked at, where there is a NIC to place.
abbrev pub met : Bool → String → Option (Network × String) → (Network → String → Interface) → Turn
met true named o f = skipped
met false named none f = unknown named
met false named (some (w, owner)) f = sits (f w owner) w

-- What `interfaces` answers: the network that was missing, or the whole of it.
pub data Placement : Type 0 where
  stuck : String → Placement
  whole : List Interface → Dict Network → Placement

-- `iutil.NetworkKey`
abbrev pub network_key : String → String → String
network_key project name = str_append project (str_append "/" name)

abbrev pub key_of : Interface → String
key_of i = network_key i.project i.network

unfoldable pub insert_interface : Interface → List Interface → List Interface
insert_interface i [] = i ∷ []
insert_interface i (x ∷ xs) =
    let rest = insert_interface i xs in
    if before (key_of x) (key_of i) then x ∷ rest else i ∷ x ∷ xs

-- The sort at the end of `interfaces`, by insertion.
unfoldable pub sorted : List Interface → List Interface
sorted [] = []
sorted (i ∷ is) = insert_interface i (sorted is)

abbrev pub without_volatile : Dict String → Dict String
without_volatile [] = []
without_volatile ((k, v) ∷ more) =
    let rest = without_volatile more in if has_prefix k "volatile." then rest else (k, v) ∷ rest

-- What `setInstance` answers.
pub data Outcome : Type 0 where
  refused : String → Outcome
  stored : Instance → Outcome

abbrev pub cut : Inst → List Interface → Dict Network → Instance
cut inst found networks = record {
  running = inst.running;
  config = without_volatile (or_else inst.expanded_config inst.config);
  interfaces = found;
  networks = networks;
}

-- What `setInstance` does with the placement of an instance.
unfoldable pub kept : Inst → Fleet → Placement → Outcome × Fleet
kept inst s (stuck missing) = (refused missing, record s { dirty = true })
kept inst s (whole found networks) =
    let i = cut inst found networks in
    let p = project_of s inst.project in
    (stored i, put_project inst.project (record p { instances = insert inst.name i p.instances }) s)

module _ (r : Readings) where
  unfoldable pub turn : Fleet → String → Dict (Dict String) → Index → String → Nic → Turn
  turn s project devices index ifname iface =
      let named = named_network r devices index ifname iface in
      met (is_unplaced r devices index ifname iface) named (network s project named)
        (seat r devices index ifname iface)

  -- The loop of `interfaces`.
  unfoldable pub place_all :
      Fleet
      → String
      → Dict (Dict String)
      → Index
      → Dict Nic
      → List Interface
      → Dict Network
      → Placement
  place_all s project devices index [] found networks = whole (sorted found) networks
  place_all s project devices index ((ifname, iface) ∷ more) found networks =
      elim (turn s project devices index ifname iface) [
        | skipped ↦ place_all s project devices index more found networks
        | unknown missing ↦ stuck missing
        | sits i w ↦
            place_all s project devices index more (found ++ i ∷ []) (insert (key_of i) w networks)
      ]

  -- `interfaces`
  unfoldable pub interfaces : Fleet → Inst → Option (Dict Nic) → Placement
  interfaces s inst none = whole [] []
  interfaces s inst (some nics) =
      let devices = or_else inst.expanded_devices inst.devices in
      place_all s inst.project devices (nic_index r inst devices) nics [] []

  -- `setInstance`: what it answers, and the fleet that is left.
  unfoldable pub set_instance : Inst → Option (Dict Nic) → Fleet → Outcome × Fleet
  set_instance inst nics s = kept inst s (interfaces s inst nics)
