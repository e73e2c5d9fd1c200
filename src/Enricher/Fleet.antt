-- ===== src/Enricher/Fleet.antt =====
-- The fleet as the enricher last saw it: ievent/enricher/state.go, apart from its copies and its JSON.
-- Where a read places an instance is in Placing.
use Prim.Native.Nat.{Ordering}
use incus_compose.Prelude.{
  ℕ, ◌+◌, Bool, true, false, not, ◌&&◌, ◌||◌, Option, none, some, String, List, [], ◌∷◌, ◌++◌, map,
  str_eq, str_compare, if◌then◌else◌, length,
}
use incus_compose.Prelude.Dict.{Dict, lookup, insert, delete}
mod Devices
mod Placing
mod Accounts
mod Placed
mod Prune
mod Tests

-- What Incus reports of a network.
pub record Listed : Type 0 where
  pub name : String
  pub project : String
  pub managed : Bool
  pub config : Dict String

-- `iutil.Network`
pub record Network : Type 0 where
  pub name : String
  pub project : String
  pub managed : Bool
  pub subnet4 : String
  pub subnet6 : String

-- `iutil.InstanceInterface`
pub record Interface : Type 0 where
  pub project : String
  pub network : String
  pub managed : Bool
  pub ipv4 : List String
  pub ipv6 : List String

-- `iutil.Instance`
pub record Instance : Type 0 where
  pub running : Bool
  pub config : Dict String
  pub interfaces : List Interface
  pub networks : Dict Network

-- `project`; no configuration is the nil map of a project that nothing has read.
pub record Project : Type 0 where
  pub config : Option (Dict String)
  pub instances : Dict Instance
  pub networks : Dict Network

-- `state`
pub record Fleet : Type 0 where
  pub projects : Dict Project
  pub dirty : Bool

-- `subnet`
unfoldable pub subnet : String → String
subnet address = if str_eq address "none" || str_eq address "auto" then "" else address

abbrev pub value_at : Dict String → String → String
value_at m k = elim (lookup k m) [ none ↦ "" | some v ↦ v ]

-- `newNetwork`
unfoldable pub new_network : Listed → Network
new_network n =
    if not n.managed
    then record { name = n.name; project = n.project; managed = false; subnet4 = ""; subnet6 = "" }
    else record {
      name = n.name;
      project = n.project;
      managed = true;
      subnet4 = subnet (value_at n.config "ipv4.address");
      subnet6 = subnet (value_at n.config "ipv6.address");
    }

-- `newProject`
abbrev pub new_project : Project
new_project = record { config = none; instances = []; networks = [] }

-- What `project` answers, on a write path.
abbrev pub project_of : Fleet → String → Project
project_of s name = elim (lookup name s.projects) [ none ↦ new_project | some p ↦ p ]

abbrev pub put_project : String → Project → Fleet → Fleet
put_project name p s = record { projects = insert name p s.projects; dirty = true }

-- `setNetwork`
unfoldable pub set_network : Listed → Fleet → Fleet
set_network n s =
    let p = project_of s n.project in
    put_project n.project (record p { networks = insert n.name (new_network n) p.networks }) s

-- A write that only happens in a project that is held.
abbrev pub in_project : String → (Project → Project) → Fleet → Fleet
in_project project change s = elim (lookup project s.projects) [
  | none ↦ record s { dirty = true }
  | some p ↦ put_project project (change p) s
]

-- `deleteNetwork`
unfoldable pub delete_network : String → String → Fleet → Fleet
delete_network project name =
    in_project project (λ p. record p { networks = delete name p.networks })

-- What one project holds under a name, and nothing where the project is not held.
unfoldable pub held_network : Fleet → String → String → Option Network
held_network s project name = elim (lookup project s.projects) [
  | none ↦ none
  | some p ↦ lookup name p.networks
]

-- `network`: the instance's own project first, and the default project second.
unfoldable pub network : Fleet → String → String → Option (Network × String)
network s project name = elim (held_network s project name) [
  | some w ↦ some (w, project)
  | none ↦ elim (held_network s "default" name) [ some w ↦ some (w, "default") | none ↦ none ]
]

-- `setProject`
unfoldable pub set_project : String → Option (Dict String) → Fleet → Fleet
set_project name config s =
    let p = project_of s name in put_project name (record p { config = config }) s

-- `projectConfig`
unfoldable pub project_config : Fleet → String → Option (Dict String)
project_config s name = elim (lookup name s.projects) [ none ↦ none | some p ↦ p.config ]

-- `deleteProject`
unfoldable pub delete_project : String → Fleet → Fleet
delete_project name s = record { projects = delete name s.projects; dirty = true }

-- `deleteInstance`
unfoldable pub delete_instance : String → String → Fleet → Fleet
delete_instance project name =
    in_project project (λ p. record p { instances = delete name p.instances })

-- `instance`
unfoldable pub held_instance : Fleet → String → String → Option Instance
held_instance s project name = elim (lookup project s.projects) [
  | none ↦ none
  | some p ↦ lookup name p.instances
]

-- `projectCount`
unfoldable pub project_count : Fleet → ℕ
project_count s = length s.projects

abbrev pub total_instances : Dict Project → ℕ
total_instances [] = 0
total_instances ((name, p) ∷ more) = length p.instances + total_instances more

-- `instanceCount`
unfoldable pub instance_count : Fleet → ℕ
instance_count s = total_instances s.projects

abbrev pub has : List String → String → Bool
has [] name = false
has (x ∷ xs) name = str_eq x name || has xs name

abbrev pub before : String → String → Bool
before a b = elim (str_compare a b) [ Ordering.lt ↦ true | _ ↦ false ]

unfoldable pub insert_name : String → List String → List String
insert_name n [] = n ∷ []
insert_name n (x ∷ xs) = let rest = insert_name n xs in if before x n then x ∷ rest else n ∷ x ∷ xs

-- `missing`, sorted by insertion; a map of anything is its keys.
unfoldable pub missing {ℓ} : {V : Type ℓ} → Dict V → List String → List String
missing [] listed = []
missing ((name, value) ∷ more) listed =
    let rest = missing more listed in if has listed name then rest else insert_name name rest

-- `subject`
pub record Subject : Type 0 where
  pub project : String
  pub instance_name : String

-- `missingInstances`
unfoldable pub missing_instances : String → List String → Fleet → List Subject
missing_instances project listed s = elim (lookup project s.projects) [
  | none ↦ []
  | some p ↦
      map (λ name. record { project = project; instance_name = name }) (missing p.instances listed)
]

unfoldable pub delete_all {ℓ} : {V : Type ℓ} → List String → Dict V → Dict V
delete_all [] m = m
delete_all (name ∷ names) m = delete_all names (delete name m)

-- `pruneNetworks`
unfoldable pub prune_networks : String → List String → Fleet → Fleet
prune_networks project listed =
    in_project project
      (λ p. record p { networks = delete_all (missing p.networks listed) p.networks })

-- `pruneProjects`
unfoldable pub prune_projects : List String → Fleet → Fleet
prune_projects listed s = record {
  projects = delete_all (missing s.projects listed) s.projects;
  dirty = true;
}

abbrev pub any_on : List Interface → String → String → Bool
any_on [] project name = false
any_on (iface ∷ more) project name =
    (str_eq iface.project project && str_eq iface.network name) || any_on more project name

-- `on`
unfoldable pub on : Instance → String → String → Bool
on i project name = any_on i.interfaces project name

-- What `networkInstances` yields of one project.
abbrev pub sits_on : String → String → String → Dict Instance → List Subject
sits_on owner project name [] = []
sits_on owner project name ((instance_name, i) ∷ more) =
    let rest = sits_on owner project name more in
    if on i project name
    then record { project = owner; instance_name = instance_name } ∷ rest
    else rest

abbrev pub sits_on_all : String → String → Dict Project → List Subject
sits_on_all project name [] = []
sits_on_all project name ((owner, p) ∷ more) =
    sits_on owner project name p.instances ++ sits_on_all project name more

-- `networkInstances`, to a consumer that takes all it is offered.
unfoldable pub network_instances : String → String → Fleet → List Subject
network_instances project name s = sits_on_all project name s.projects

abbrev pub is_empty : List String → Bool
is_empty [] = true
is_empty (x ∷ xs) = false

abbrev pub addressed_any : List Interface → Bool
addressed_any [] = false
addressed_any (iface ∷ more) =
    (not (is_empty iface.ipv4) || not (is_empty iface.ipv6)) || addressed_any more

-- `addressed`
unfoldable pub addressed : Instance → Bool
addressed i = addressed_any i.interfaces
