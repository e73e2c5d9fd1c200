-- ===== src/Placement/Tests.antt =====
-- Runs of the placement of project/placement.go on small clusters.
use incus_compose.Prelude.{
  pos, negsuc, ◌≤◌, ◌≡◌, refl, sym, ap, ◌∙◌, Bool-cases, inr, arith, true, false, Option, none,
  some, String, List, [], ◌∷◌, inl, length, All, count_if, str_eq, str_eq_iff, if◌then◌else◌,
}
use incus_compose.Prelude.Dict.{lookup, insert}
use incus_compose.Placement.{
  Member, Service, parsed, try_operator, supported, keep_members, equal_fold,
  filter_cluster_members, parse_placement_constraint, parse_all, service_restart_policy, matches,
}
use incus_compose.Placement.Order.{
  order_members, sort_members, insert_member, ahead, deal, fill_buckets, member_spread_value,
}
use incus_compose.Placement.Deal.{order_members-count}
use incus_compose.Placement.Names.{targeted, Distinct}
use incus_compose.Placement.Replicas.{replicas_within_max}
use incus_compose.Placement.Eligible.{Eligible, targets-Eligible}
use incus_compose.Placement.Storage.{
  Driver, Volume, is_storage_driver_remote, is_service_storage_remote,
  is_service_storage_remote_lem, all_remote, named_pools, IsTrue,
}
use incus_compose.Placement.Resolve.{
  Env, placed, panicked, names_of, standalone, assign, fill_targets, choose_targets, check_limits,
  place_on, resolve_service_placement_env,
}

abbrev member : String → String → Member
member name rack = record {
  server_name = name;
  status = "Online";
  roles = [];
  groups = [];
  failure_domain = rack;
  config = ("user.disk", "ssd") ∷ [];
}

abbrev cluster : List Member
cluster = member "n1" "a" ∷ member "n2" "a" ∷ member "n3" "b" ∷ []

abbrev env_of_three : Env
env_of_three = record {
  clustered = true;
  server_name = "n1";
  network_type = "ovn";
  remote_pool = true;
  members = cluster;
}

abbrev web : Service
web = record {
  name = "web";
  restart = "";
  deploy = some (record {
    mode = "";
    replicas = some (pos 4);
    restart_condition = some "any";
    constraints = "node.labels.disk == ssd" ∷ [];
    preferences = "node.failure_domain" ∷ [];
    max_replicas = 2;
  });
  allow_local_storage = false;
}

parse_test :
    parse_placement_constraint " node.role != database "
    ≡ parsed (record { key = "node.role"; op = "!="; value = "database" })
unfolding parse_placement_constraint try_operator supported
parse_test = refl

restart_test : service_restart_policy web ≡ "always"
unfolding service_restart_policy
restart_test = refl

order_test :
    names_of (order_members "n1" ("node.failure_domain" ∷ []) cluster) ≡ "n1" ∷ "n3" ∷ "n2" ∷ []
unfolding order_members sort_members insert_member ahead deal fill_buckets member_spread_value
    insert lookup
order_test = refl

abbrev targets_of_web : List String
targets_of_web = "n1" ∷ "n3" ∷ "n2" ∷ "n1" ∷ []

placed_web :
    resolve_service_placement_env env_of_three web none false ≡ placed 4 targets_of_web false
unfolding resolve_service_placement_env filter_cluster_members parse_all parse_placement_constraint
    try_operator supported keep_members equal_fold matches place_on check_limits choose_targets
    assign fill_targets order_members sort_members insert_member ahead deal fill_buckets
    member_spread_value standalone insert lookup
placed_web = refl

-- `--scale web=-1` without a cluster.
negative_scale :
    resolve_service_placement_env
      (record env_of_three { clustered = false })
      web
      (some (negsuc 0))
      false
    ≡ panicked
unfolding resolve_service_placement_env filter_cluster_members parse_all parse_placement_constraint
    try_operator supported keep_members equal_fold matches place_on check_limits choose_targets
    assign fill_targets order_members sort_members insert_member ahead deal fill_buckets
    member_spread_value standalone insert lookup
negative_scale = refl

cluster-Distinct : Distinct cluster
cluster-Distinct name = ground (
  arith,
  str_eq_iff "n1" name,
  str_eq_iff "n2" name,
  str_eq_iff "n3" name,
  str_eq_iff "n1" "n2",
  str_eq_iff "n1" "n3",
  str_eq_iff "n2" "n3",
)

replicas_within_max_example : targeted "n1" targets_of_web ≤ 2
replicas_within_max_example =
    replicas_within_max env_of_three web none false "n1" refl (omega arith) (omega arith)
      (omega arith) cluster-Distinct placed_web

parse_web :
    parse_all ("node.labels.disk == ssd" ∷ [])
    ≡ inl (record { key = "node.labels.disk"; op = "=="; value = "ssd" } ∷ [])
unfolding parse_all parse_placement_constraint try_operator supported
parse_web = refl

targets-Eligible_example :
    (length targets_of_web ≡ 4)
    × All
        (Eligible (record { key = "node.labels.disk"; op = "=="; value = "ssd" } ∷ []) cluster)
        targets_of_web
targets-Eligible_example =
    targets-Eligible env_of_three web none false
      (record { key = "node.labels.disk"; op = "=="; value = "ssd" } ∷ []) refl refl parse_web
      placed_web

order_members-count_example :
    count_if
      (λ m. str_eq m.failure_domain "a")
      (order_members "n2" ("node.failure_domain" ∷ []) cluster)
    ≡ count_if (λ m. str_eq m.failure_domain "a") cluster
order_members-count_example =
    order_members-count (λ m. str_eq m.failure_domain "a") "n2" ("node.failure_domain" ∷ []) cluster

abbrev driver_of : String → Option String
driver_of pool =
    if str_eq pool "shared" then some "ceph" else if str_eq pool "disk" then some "dir" else none

abbrev drivers : List Driver
drivers = record { name = "dir"; remote = false } ∷ record { name = "ceph"; remote = true } ∷ []

cache-IsTrue : IsTrue driver_of drivers "shared" "shared" (("shared", true) ∷ [])
unfolding lookup is_storage_driver_remote
cache-IsTrue pool remote h = elim (Bool-cases (str_eq "shared" pool)) [
  | inl same ↦
      let ceph : driver_of "shared" ≡ some "ceph" = refl in
      let is_it = (str_eq_iff "shared" pool).0 same in
      let held : some true ≡ some remote = sym (ap (λ b. if b then some true else none) same) ∙ h in
      ("ceph", ap driver_of (sym is_it) ∙ ceph, cc held)
  | inr differs ↦
      let held = sym (ap (λ b. if b then some true else none) differs) ∙ h in absurd (cc held)
]

abbrev volumes : List Volume
volumes = record { volume_type = "volume"; source = "data" } ∷ []

is_service_storage_remote_example :
    ((is_service_storage_remote driver_of drivers "shared" "shared"
        (("data", "disk") ∷ [])
        volumes
        (("shared", true) ∷ [])).0
      ≡ all_remote driver_of drivers "shared" "shared" (
          "shared"
          ∷ named_pools driver_of drivers "shared" "shared" (("data", "disk") ∷ []) volumes))
    × IsTrue driver_of drivers "shared" "shared"
        (is_service_storage_remote driver_of drivers "shared" "shared"
          (("data", "disk") ∷ [])
          volumes
          (("shared", true) ∷ [])).1
is_service_storage_remote_example =
    is_service_storage_remote_lem driver_of drivers "shared" "shared" (("data", "disk") ∷ [])
      volumes (("shared", true) ∷ []) cache-IsTrue
