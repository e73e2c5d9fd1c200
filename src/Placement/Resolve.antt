-- ===== src/Placement/Resolve.antt =====
-- `resolveServicePlacementEnv` of project/placement.go.
use incus_compose.Prelude.{
  ℤ, pos, negsuc, ℕ, zero, suc, ◌-◌, ◌*◌, ◌%◌, ◌^◌, Bool, true, false, not, ◌&&◌, ◌||◌, Option,
  none, some, String, List, [], ◌∷◌, str_eq, if◌then◌else◌, length, ltb, ◌==◌, get_elem?, replicate,
  inl, inr,
}
use incus_compose.Placement.{Member, Service, filter_cluster_members}
use incus_compose.Placement.Order.{order_members}

-- `clusterPlacementEnv`
pub record Env : Type 0 where
  pub clustered : Bool
  pub server_name : String
  pub network_type : String
  pub remote_pool : Bool
  pub members : List Member

pub data Refusal : Type 0 where
  unsupported_mode bad_constraint no_members too_many_replicas local_storage : Refusal

-- `placed` holds the desired count, the targets and whether to warn. A negative count makes
-- `make([]string, desired)` panic.
pub data Placing : Type 0 where
  placed : ℕ → List String → Bool → Placing
  refused : Refusal → Placing
  panicked : Placing

-- `uint64(desired)` of an `int`.
abbrev pub to_uint64 : ℤ → ℕ
to_uint64 (pos n) = n % 2 ^ 64
to_uint64 (negsuc n) = 2 ^ 64 - suc n

abbrev pub is_number : ℤ → ℕ → Bool
is_number (pos n) k = n == k
is_number (negsuc n) k = false

abbrev pub more_than_one : ℤ → Bool
more_than_one (pos n) = ltb 1 n
more_than_one (negsuc n) = false

-- The index of a slice; out of range Go panics, which a non-empty `ordered` rules out.
abbrev pub name_at : List Member → ℕ → String
name_at ordered i = elim (get_elem? ordered i) [ none ↦ "" | some m ↦ m.server_name ]

-- `for i := range desired`, from index `i` on.
unfoldable pub fill_targets : List Member → ℕ → ℕ → List String
fill_targets ordered i zero = []
fill_targets ordered i (suc n) =
    name_at ordered (i % length ordered) ∷ fill_targets ordered (suc i) n

abbrev pub mode_of : Service → String
mode_of svc = elim svc.deploy [
  | none ↦ "replicated"
  | some d ↦ if not (str_eq d.mode "") then d.mode else "replicated"
]

-- The count that was asked for: the override, else that of the file.
abbrev pub wanted : Service → Option ℤ → ℤ
wanted svc (some n) = n
wanted svc none = elim svc.deploy [
  | none ↦ pos 1
  | some d ↦ elim d.replicas [ none ↦ pos 1 | some n ↦ n ]
]

abbrev pub max_replicas_of : Service → ℕ
max_replicas_of svc = elim svc.deploy [ none ↦ 0 | some d ↦ d.max_replicas ]

abbrev pub constraints_of : Service → List String
constraints_of svc = elim svc.deploy [ none ↦ [] | some d ↦ d.constraints ]

abbrev pub preferences_of : Service → List String
preferences_of svc = elim svc.deploy [ none ↦ [] | some d ↦ d.preferences ]

abbrev pub is_none : Option ℤ → Bool
is_none none = true
is_none (some n) = false

-- The targets of a server that is not clustered: one empty name for each replica.
unfoldable pub standalone : ℤ → Placing
standalone (pos n) = placed n (replicate n "") false
standalone (negsuc n) = panicked

abbrev pub names_of : List Member → List String
names_of [] = []
names_of (m ∷ ms) = m.server_name ∷ names_of ms

abbrev pub has_some : List String → Bool
has_some [] = false
has_some (x ∷ xs) = true

-- The last two lines of the function, on the members in order.
unfoldable pub assign : List Member → ℤ → Bool → Placing
assign ordered (pos n) warn = placed n (fill_targets ordered 0 n) warn
assign ordered (negsuc n) warn = panicked

-- From `hasPlacement` on: which members the replicas go to.
unfoldable pub choose_targets : Env → Service → Option ℤ → Bool → List Member → ℤ → Bool → Placing
choose_targets env svc scale global candidates desired warn =
    let preferences = preferences_of svc in
    let has_placement =
      global
      || has_some (constraints_of svc)
      || has_some preferences
      || ltb 0 (max_replicas_of svc) in
    if is_number desired 1 && not has_placement
    then (if str_eq env.network_type "bridge" || not env.remote_pool
        then placed 1 (env.server_name ∷ []) warn
        else placed 1 ("" ∷ []) warn)
    else if global && is_none scale
    then placed (length candidates) (names_of candidates) warn
    else assign (order_members env.server_name preferences candidates) desired warn

-- From the test on a count of 0 on, with the count that is desired.
unfoldable pub check_limits : Env → Service → Option ℤ → Bool → Bool → List Member → ℤ → Placing
check_limits env svc scale allow_local global candidates desired =
    let max_replicas = max_replicas_of svc in
    let local = (more_than_one desired || global) && not env.remote_pool in
    if is_number desired 0
    then placed 0 [] false
    else if ltb 0 max_replicas
        && ltb (length candidates * max_replicas % 2 ^ 64) (to_uint64 desired)
    then refused too_many_replicas
    else if local && not (allow_local || svc.allow_local_storage)
    then refused local_storage
    else choose_targets env svc scale global candidates desired local

-- From the filter's result on.
unfoldable pub place_on : Env → Service → Option ℤ → Bool → Bool → List Member → ℤ → Placing
place_on env svc scale allow_local global [] asked = refused no_members
place_on env svc scale allow_local global (m ∷ ms) asked =
    check_limits env svc scale allow_local global (m ∷ ms)
      (if global && is_none scale then pos (length (m ∷ ms)) else asked)

-- `resolveServicePlacementEnv`
unfoldable pub resolve_service_placement_env : Env → Service → Option ℤ → Bool → Placing
resolve_service_placement_env env svc scale allow_local =
    let mode = mode_of svc in
    let global = str_eq mode "global" in
    let asked = wanted svc scale in
    if not (str_eq mode "replicated" || global)
    then refused unsupported_mode
    else if not env.clustered
    then standalone (if global && is_none scale then pos 1 else asked)
    else elim (filter_cluster_members env.members (constraints_of svc)) [
      | inl candidates ↦ place_on env svc scale allow_local global candidates asked
      | inr e ↦ refused bad_constraint
    ]
