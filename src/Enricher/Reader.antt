-- ===== src/Enricher/Reader.antt =====
-- One read of an instance by the enricher: `incusReader`, `hasNICDevices`, `hasAddresses` and
-- `isVMWithoutAgent` of ievent/enricher/reads.go. What Incus answers and when the poll's context ends
-- are arguments; logging is left out.
use Prim.Native.Char.{Char, code}
use incus_compose.Prelude.{
  ℤ, pos, negsuc, ℕ, ◌+◌, ◌-◌, ◌*◌, Bool, true, false, not, ◌&&◌, ◌||◌, Option, none, some, String,
  List, [], ◌∷◌, str_eq, if◌then◌else◌, ltb, leb, ◌==◌,
}
use incus_compose.Prelude.Dict.{Dict, lookup}
mod Settled
mod Tests

-- The codes of `api.StatusCode` that the reader tells apart.
pub data Status : Type 0 where
  running starting started other : Status

pub record Instance : Type 0 where
  pub instance_type : String
  pub status : Status
  pub devices : Dict (Dict String)
  pub expanded_devices : Dict (Dict String)
  pub config : Dict String
  pub expanded_config : Dict String

pub record Address : Type 0 where
  pub scope : String
  pub address : String

pub record Interface : Type 0 where
  pub interface_type : String
  pub addresses : List Address

pub record State : Type 0 where
  pub status : Status
  pub network : Dict Interface
  pub processes : ℤ

abbrev pub is_running : Status → Bool
is_running running = true
is_running starting = false
is_running started = false
is_running other = false

abbrev pub is_starting : Status → Bool
is_starting running = false
is_starting starting = true
is_starting started = true
is_starting other = false

abbrev pub value_is : Dict String → String → String → Bool
value_is m key value = elim (lookup key m) [ none ↦ false | some v ↦ str_eq v value ]

abbrev pub any_nic : Dict (Dict String) → Bool
any_nic [] = false
any_nic ((name, dev) ∷ more) = value_is dev "type" "nic" || any_nic more

-- `hasNICDevices`
unfoldable pub has_nic_devices : Instance → Bool
has_nic_devices inst = elim inst.expanded_devices [
  | [] ↦ any_nic inst.devices
  | dev ∷ devs ↦ any_nic (dev ∷ devs)
]

abbrev pub octet : Option ℕ → ℕ → Option ℕ
octet none d = some d
octet (some n) d = if n == 0 then none else if leb (n * 10 + d) 255 then some (n * 10 + d) else none

-- `netip.ParseAddr` succeeds with an address of which `Is4` holds, where `dots` have been read and
-- the field begun has the value `field`.
unfoldable pub is_ipv4 : String → ℕ → Option ℕ → Bool
is_ipv4 String.[] dots none = false
is_ipv4 String.[] dots (some n) = dots == 3
is_ipv4 (String.◌∷◌ c s) dots field =
    let next_field = is_ipv4 s (1 + dots) none in
    let digit = octet field (code c - 48) in
    let same_field = is_ipv4 s dots digit in
    if code c == 46
    then elim field as (λ o. Bool) [ none ↦ false | some n ↦ next_field ]
    else if leb 48 (code c) && leb (code c) 57
    then elim digit as (λ o. Bool) [ none ↦ false | some n ↦ same_field ]
    else false

abbrev pub any_global : List Address → Bool
any_global [] = false
any_global (a ∷ more) =
    (str_eq a.scope "global" && not (str_eq a.address "") && is_ipv4 a.address 0 none)
    || any_global more

-- `hasAddresses`
unfoldable pub has_addresses : Dict Interface → Bool
has_addresses [] = false
has_addresses ((name, iface) ∷ more) =
    (not (str_eq iface.interface_type "loopback") && any_global iface.addresses)
    || has_addresses more

abbrev pub above_zero : ℤ → Bool
above_zero (pos n) = ltb 0 n
above_zero (negsuc n) = false

-- `isVMWithoutAgent`
unfoldable pub is_vm_without_agent : Instance → State → Bool
is_vm_without_agent inst state =
    str_eq inst.instance_type "virtual-machine"
    && not (above_zero state.processes)
    && not (value_is inst.config "volatile.last_state.agent" "STARTED")
    && not (value_is inst.expanded_config "volatile.last_state.agent" "STARTED")

-- One turn of the loop's select: the context has ended; or a tick, with the state that is read, or
-- an error, when the context may have ended too; a new read of the instance comes with the state.
pub data Turn : Type 0 where
  expired : Turn
  failed : Bool → Turn
  ticked : State → Option Instance → Turn

-- `landed` holds what is returned, and `timed_out` the same after the context's end.
pub data Outcome : Type 0 where
  landed : Instance → State → Outcome
  timed_out : Instance → State → Outcome
  polling : Outcome

abbrev pub refreshed : Instance → Option Instance → Instance
refreshed inst none = inst
refreshed inst (some new) = if is_running inst.status then inst else new

-- The loop, of a read that waits for the instance to run or not.
unfoldable pub poll : Bool → List Turn → Instance → State → Outcome
poll wait [] inst state = polling
poll wait (expired ∷ turns) inst state = timed_out inst state
poll wait (failed ended ∷ turns) inst state =
    let rest = poll wait turns inst state in if ended then timed_out inst state else rest
poll true (ticked now again ∷ turns) inst state =
    let rest = poll true turns inst now in
    if is_running now.status
    then (if not (has_nic_devices inst) || has_addresses now.network
        then landed (refreshed inst again) now
        else rest)
    else if not (is_starting now.status)
    then landed inst now
    else rest
poll false (ticked now again ∷ turns) inst state =
    let rest = poll false turns inst now in
    if not (is_running now.status) || has_addresses now.network then landed inst now else rest

-- What is returned at once.
unfoldable pub settled_at_once : Bool → Bool → Instance → State → Bool
settled_at_once false want inst state =
    not want
    || not (is_running inst.status)
    || not (is_running state.status)
    || not (has_nic_devices inst)
    || has_addresses state.network
    || is_vm_without_agent inst state
settled_at_once true want inst state =
    is_running state.status && (not (has_nic_devices inst) || has_addresses state.network)

pub data Read : Type 0 where
  read_error no_instance : Read
  unserved : Instance → Read
  outcome : Outcome → Read

-- What `GetInstance` answers: an error, nil, or an instance.
pub data Got : Type 0 where
  got_error got_nothing : Got
  got : Instance → Got

-- `incusReader`; `serves` is always true where the function is nil.
unfoldable pub incus_reader :
    (Instance → Bool) → Bool → Bool → Got → Option State → List Turn → Read
incus_reader serves want wait got_error state turns = read_error
incus_reader serves want wait got_nothing state turns = no_instance
incus_reader serves want wait (got inst) state turns =
    let asked : Read = elim state [
      | none ↦ read_error
      | some now ↦
          outcome (
            if settled_at_once wait want inst now
            then landed inst now
            else poll wait turns inst now)
    ] in
    if not (serves inst) then unserved inst else asked
