-- ===== src/Enricher/Fleet/Devices.antt =====
-- What a read says of an instance, and how the NICs of its state are found among its devices:
-- `nicIndex`, `nicDevice`, `addresses` and `parseIP` of ievent/enricher/state.go. `strings.ToLower`
-- and the readings of `netip` are parameters.
use incus_compose.Prelude.{
  Bool, not, ◌&&◌, ◌||◌, Option, none, some, String, List, [], ◌∷◌, str_eq, str_append,
  if◌then◌else◌,
}
use incus_compose.Prelude.Dict.{Dict, lookup, insert}
use incus_compose.Enricher.Fleet.{Network, Interface, value_at, before, is_empty}

-- What `netip` answers of an address.
pub record Addr : Type 0 where
  pub is4 : Bool
  pub is6 : Bool
  pub text : String

pub record Readings : Type 0 where
  pub to_lower : String → String
  pub parse_addr : String → Option Addr
  pub parse_prefix : String → Option Addr

pub record Scoped : Type 0 where
  pub address : String
  pub scope : String

-- One interface of the state of an instance.
pub record Nic : Type 0 where
  pub nic_type : String
  pub hwaddr : String
  pub addresses : List Scoped

-- What a read says of an instance.
pub record Inst : Type 0 where
  pub name : String
  pub project : String
  pub running : Bool
  pub config : Dict String
  pub expanded_config : Dict String
  pub devices : Dict (Dict String)
  pub expanded_devices : Dict (Dict String)

abbrev pub or_else {ℓ} : {V : Type ℓ} → Dict V → Dict V → Dict V
or_else [] other = other
or_else (x ∷ xs) other = x ∷ xs

abbrev pub device_at : Dict (Dict String) → String → Dict String
device_at devices k = elim (lookup k devices) [ none ↦ [] | some d ↦ d ]

abbrev pub first_of : String → String → String
first_of a b = if str_eq a "" then b else a

pub record Index : Type 0 where
  pub by_hwaddr : Dict String
  pub by_name : Dict String

module _ (r : Readings) where
  abbrev pub noted_hwaddr : String → String → Dict String → Dict String
  noted_hwaddr hwaddr key m = if str_eq hwaddr "" then m else insert (r.to_lower hwaddr) key m

  -- One turn of the loop of `nicIndex`.
  abbrev pub indexed : Dict String → String → Dict String → Index → Index
  indexed config key device index =
      let kind = value_at device "type" in
      let volatile = str_append "volatile." key in
      if not (str_eq kind "") && not (str_eq kind "nic") then index else record {
        by_hwaddr =
            noted_hwaddr (value_at device "hwaddr") key
              (noted_hwaddr (value_at config (str_append volatile ".hwaddr")) key index.by_hwaddr);
        by_name =
            insert
              (first_of (value_at device "name")
                (first_of (value_at config (str_append volatile ".name")) key))
              key index.by_name;
      }

  abbrev pub index_all : Dict String → Dict (Dict String) → Index → Index
  index_all config [] index = index
  index_all config ((key, device) ∷ more) index =
      index_all config more (indexed config key device index)

  -- `nicIndex`
  unfoldable pub nic_index : Inst → Dict (Dict String) → Index
  nic_index inst devices =
      index_all (or_else inst.expanded_config inst.config) devices
        (record { by_hwaddr = []; by_name = [] })

  -- `nicDevice`
  unfoldable pub nic_device : String → Nic → Index → String
  nic_device ifname iface index =
      let by_name : String = elim (lookup ifname index.by_name) [ none ↦ ifname | some d ↦ d ] in
      elim (lookup (r.to_lower iface.hwaddr) index.by_hwaddr) [
        | none ↦ by_name
        | some d ↦ if str_eq iface.hwaddr "" then by_name else d
      ]

  abbrev pub insert_address : String → List String → List String
  insert_address a [] = a ∷ []
  insert_address a (x ∷ xs) =
      let rest = insert_address a xs in if before x a then x ∷ rest else a ∷ x ∷ xs

  -- `addresses`, sorted by insertion.
  unfoldable pub addresses : (Addr → Bool) → List Scoped → List String
  addresses family [] = []
  addresses family (a ∷ more) =
      let rest = addresses family more in
      if not (str_eq a.scope "global") then rest else elim (r.parse_addr a.address) [
        | none ↦ rest
        | some ip ↦ if family ip then insert_address a.address rest else rest
      ]

  abbrev pub of_family : (Addr → Bool) → Addr → List String
  of_family family ip = if family ip then ip.text ∷ [] else []

  -- `parseIP`
  unfoldable pub parse_ip : String → (Addr → Bool) → List String
  parse_ip raw family = if str_eq raw "" then [] else elim (r.parse_addr raw) [
    | some ip ↦ of_family family ip
    | none ↦ elim (r.parse_prefix raw) [ none ↦ [] | some ip ↦ of_family family ip ]
  ]

  abbrev pub held_addresses : (Addr → Bool) → Nic → String → List String
  held_addresses family iface static =
      let seen = addresses family iface.addresses in
      if is_empty seen then parse_ip static family else seen

  -- The network that the device behind an interface names, or its parent.
  abbrev pub named_network : Dict (Dict String) → Index → String → Nic → String
  named_network devices index ifname iface =
      let device = device_at devices (nic_device ifname iface index) in
      first_of (value_at device "network") (value_at device "parent")

  -- The interfaces that are passed over.
  abbrev pub is_unplaced : Dict (Dict String) → Index → String → Nic → Bool
  is_unplaced devices index ifname iface =
      str_eq iface.nic_type "loopback" || str_eq (named_network devices index ifname iface) ""

  abbrev pub seat : Dict (Dict String) → Index → String → Nic → Network → String → Interface
  seat devices index ifname iface w owner =
      let device = device_at devices (nic_device ifname iface index) in
      record {
        project = owner;
        network = w.name;
        managed = w.managed;
        ipv4 = held_addresses (λ a. a.is4) iface (value_at device "ipv4.address");
        ipv6 = held_addresses (λ a. a.is6) iface (value_at device "ipv6.address");
      }
