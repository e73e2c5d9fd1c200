-- ===== src/Placement.antt =====
-- Placement of a service's replicas on the members of a cluster: project/placement.go, with the
-- fields of Incus's `api.ClusterMember` and of compose-go's `types.ServiceConfig` that it reads.
use Prim.Native.Char.{Char, code}
use incus_compose.Prelude.{
  ℤ, ℕ, ◌≡◌, Bool, true, false, not, ◌&&◌, ◌||◌, Option, none, some, String, List, [], ◌∷◌, str_eq,
  str_append, ◌⊎◌, inl, inr, leb, ◌==◌, ◌+◌, if◌then◌else◌, has_prefix, trim_prefix, trim_space,
  cut,
}
use incus_compose.Prelude.Dict.{Dict, lookup}
mod Order
mod Resolve
mod Deal
mod Names
mod Spread
mod Yields
mod Replicas
mod Eligible
mod Storage
mod Tests

pub record Member : Type 0 where
  pub server_name : String
  pub status : String
  pub roles : List String
  pub groups : List String
  pub failure_domain : String
  pub config : Dict String

pub record Deploy : Type 0 where
  pub mode : String
  pub replicas : Option ℤ
  -- The condition of `restart_policy`; `none` is the nil pointer.
  pub restart_condition : Option String
  pub constraints : List String
  -- The `spread` of each preference.
  pub preferences : List String
  -- A `uint64`.
  pub max_replicas : ℕ

pub record Service : Type 0 where
  pub name : String
  pub restart : String
  pub deploy : Option Deploy
  -- What `raw["allow-local-storage"].(bool)` yields, `false` when the extension is absent.
  pub allow_local_storage : Bool

-- `serviceRestartPolicy`
unfoldable pub service_restart_policy : Service → String
service_restart_policy svc = if not (str_eq svc.restart "") then svc.restart else elim svc.deploy [
  | none ↦ ""
  | some d ↦ elim d.restart_condition [
    | none ↦ ""
    | some condition ↦
        if str_eq condition "none"
        then "no"
        else if str_eq condition "on-failure"
        then "on-failure"
        else if str_eq condition "any" || str_eq condition ""
        then "always"
        else condition
  ]
]

pub record Constraint : Type 0 where
  pub key : String
  pub op : String
  pub value : String

pub data Parse : Type 0 where
  parsed : Constraint → Parse
  unsupported_key invalid : Parse

unfoldable pub supported : String → Bool
supported lhs =
    str_eq lhs "node.hostname"
    || str_eq lhs "node.id"
    || str_eq lhs "node.role"
    || str_eq lhs "node.group"
    || str_eq lhs "node.failure_domain"
    || has_prefix lhs "node.labels."

-- One round of the loop over the operators; `next` is what the later rounds yield.
unfoldable pub try_operator : String → String → Parse → Parse
try_operator op raw next = elim (cut op raw) [
  | none ↦ next
  | some (left, right) ↦
      let lhs = trim_space left in
      let rhs = trim_space right in
      if str_eq lhs ""
      then invalid
      else if supported lhs
      then parsed (record { key = lhs; op = op; value = rhs })
      else unsupported_key
]

-- `parsePlacementConstraint`
unfoldable pub parse_placement_constraint : String → Parse
parse_placement_constraint raw = try_operator "==" raw (try_operator "!=" raw invalid)

abbrev pub contains : List String → String → Bool
contains [] v = false
contains (x ∷ xs) v = str_eq x v || contains xs v

-- A Go map of strings read at a key that it may not hold.
abbrev pub value_at : Dict String → String → String
value_at m k = elim (lookup k m) [ none ↦ "" | some v ↦ v ]

-- `Config["user."+labelKey]`
abbrev pub user_label : Member → String → String
user_label m key = value_at m.config (str_append "user." (trim_prefix key "node.labels."))

-- `placementConstraint.matches`
unfoldable pub matches : Constraint → Member → Bool
matches c m =
    let match =
      if str_eq c.key "node.hostname" || str_eq c.key "node.id"
      then str_eq m.server_name c.value
      else if str_eq c.key "node.role"
      then contains m.roles c.value
      else if str_eq c.key "node.group"
      then contains m.groups c.value
      else if str_eq c.key "node.failure_domain"
      then str_eq m.failure_domain c.value
      else if has_prefix c.key "node.labels."
      then str_eq (user_label m c.key) c.value
      else false in
    if str_eq c.op "!=" then not match else match

fold_case : Char → ℕ
fold_case c = let n = code c in if leb 65 n && leb n 90 then n + 32 else n

-- `strings.EqualFold` against an ASCII text without K and S, whose only other folds are ASCII.
unfoldable pub equal_fold : String → String → Bool
unfolding fold_case
equal_fold String.[] String.[] = true
equal_fold String.[] (String.◌∷◌ d t) = false
equal_fold (String.◌∷◌ c s) String.[] = false
equal_fold (String.◌∷◌ c s) (String.◌∷◌ d t) = (fold_case c == fold_case d) && equal_fold s t

-- The loop that parses the constraints; the error is the first one.
unfoldable pub parse_all : List String → (List Constraint) ⊎ Parse
parse_all [] = inl []
parse_all (raw ∷ raws) =
    let rest = parse_all raws in
    elim (parse_placement_constraint raw) [
      | parsed c ↦ elim rest [ inl cs ↦ inl (c ∷ cs) | inr e ↦ inr e ]
      | unsupported_key ↦ inr unsupported_key
      | invalid ↦ inr invalid
    ]

abbrev pub matches_all : List Constraint → Member → Bool
matches_all [] m = true
matches_all (c ∷ cs) m = matches c m && matches_all cs m

abbrev pub online : Member → Bool
online m = str_eq m.status "" || equal_fold m.status "Online"

unfoldable pub keep_members : List Constraint → List Member → List Member
keep_members cs [] = []
keep_members cs (m ∷ ms) =
    let rest = keep_members cs ms in if online m && matches_all cs m then m ∷ rest else rest

-- `filterClusterMembers`
unfoldable pub filter_cluster_members : List Member → List String → (List Member) ⊎ Parse
filter_cluster_members members raws = elim (parse_all raws) [
  | inl cs ↦ inl (keep_members cs members)
  | inr e ↦ inr e
]
