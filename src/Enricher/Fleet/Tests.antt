-- ===== src/Enricher/Fleet/Tests.antt =====
-- The fleet as the enricher last saw it (ievent/enricher/state.go).
use incus_compose.Prelude.{
  Option, ◌≡◌, refl, true, false, not, ◌&&◌, none, some, [], ◌∷◌, if◌then◌else◌, str_eq,
}
use incus_compose.Prelude.Dict.{Dict, lookup, insert, delete}
use incus_compose.Enricher.Fleet.{
  Listed, Fleet, Instance, Project, held_network, held_instance, network, has, missing, insert_name,
  missing_instances, prune_networks, prune_projects, set_network, new_network, delete_all,
}
use incus_compose.Enricher.Fleet.Devices.{
  Readings, Nic, Inst, nic_index, nic_device, addresses, parse_ip,
}
use incus_compose.Enricher.Fleet.Placing.{
  whole, turn, place_all, interfaces, set_instance, sorted, insert_interface,
}
use incus_compose.Enricher.Fleet.Placed.{Settled, set_instance-Settled}
use incus_compose.Enricher.Fleet.Prune.{is_some, told, prune_lem}

abbrev bridge : Listed
bridge = record {
  name = "br0";
  project = "shop";
  managed = true;
  config = ("ipv4.address", "10.0.0.1/24") ∷ ("ipv6.address", "none") ∷ [];
}

abbrev shared : Listed
shared = record { name = "br0"; project = "default"; managed = false; config = [] }

abbrev web : Instance
web = record { running = true; config = []; interfaces = []; networks = [] }

abbrev shop : Project
shop = record { config = none; instances = ("web", web) ∷ ("db", web) ∷ []; networks = [] }

abbrev fleet : Fleet
fleet =
    set_network shared
      (set_network bridge (record { projects = ("shop", shop) ∷ []; dirty = false }))

-- A network that a listing leaves out no longer hides the one of the default project.
own_network_gone :
    network (prune_networks "shop" ("br1" ∷ []) fleet) "shop" "br0"
    ≡ some (new_network shared, "default")
unfolding network held_network prune_networks set_network lookup insert delete missing delete_all
    insert_name
own_network_gone = refl

missing_web :
    missing_instances "shop" ("db" ∷ []) fleet
    ≡ record { project = "shop"; instance_name = "web" } ∷ []
unfolding missing_instances missing set_network lookup insert insert_name
missing_web = refl

prune_lem_example :
    (held_network (prune_networks "shop" ("br1" ∷ []) fleet) "shop" "br0" ≡ (
      if str_eq "shop" "shop" && not (has ("br1" ∷ []) "br0")
      then none
      else held_network fleet "shop" "br0"))
    × (lookup "shop" ((prune_projects ("br1" ∷ []) fleet).projects)
        ≡ (if has ("br1" ∷ []) "shop" then lookup "shop" fleet.projects else none))
    × (told (missing_instances "shop" ("br1" ∷ []) fleet) "shop" "br0"
        ≡ str_eq "shop" "shop"
          && is_some (held_instance fleet "shop" "br0")
          && not (has ("br1" ∷ []) "br0"))
prune_lem_example = prune_lem "shop" "shop" "br0" ("br1" ∷ []) fleet

abbrev readings : Readings
readings = record {
  to_lower = λ s. s;
  parse_addr = λ s. some (record { is4 = true; is6 = false; text = s });
  parse_prefix = λ s. none;
}

abbrev api : Inst
api = record {
  name = "api";
  project = "shop";
  running = true;
  config = ("volatile.eth-1.hwaddr", "00:16") ∷ ("user.a", "b") ∷ [];
  expanded_config = [];
  devices = ("eth-1", ("type", "nic") ∷ ("network", "br0") ∷ []) ∷ [];
  expanded_devices = [];
}

abbrev nics : Option (Dict Nic)
nics = some (
    (
      "eth0",
      record {
        nic_type = "broadcast";
        hwaddr = "00:16";
        addresses = record { address = "10.0.0.7"; scope = "global" } ∷ [];
      },
    )
    ∷ [])

-- The NIC is found by its hardware address, and the bridge of the instance's own project is taken.
api_interfaces :
    interfaces readings fleet api nics
    ≡ whole
        (record {
          project = "shop";
          network = "br0";
          managed = true;
          ipv4 = "10.0.0.7" ∷ [];
          ipv6 = [];
        }
          ∷ [])
        (("shop/br0", new_network bridge) ∷ [])
unfolding interfaces place_all new_network turn nic_index nic_device addresses parse_ip network
    held_network set_network lookup insert sorted insert_interface
api_interfaces = refl

set_instance-Settled_example :
    Settled readings api nics fleet (set_instance readings api nics fleet)
set_instance-Settled_example = set_instance-Settled readings api nics fleet
