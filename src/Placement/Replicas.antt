-- ===== src/Placement/Replicas.antt =====
-- `resolveServicePlacementEnv` of project/placement.go keeps to `max_replicas_per_node`.
use native.Mathlib.Nat.{mod-eq_of_lt, mod-le}
use incus_compose.Prelude.{
  ℤ, pos, negsuc, ℕ, ◌*◌, ◌%◌, ◌^◌, ◌≤◌, ◌<◌, ◌≡◌, sym, subst, Bool, true, not, ◌&&◌, ◌||◌, Option,
  String, List, [], ◌∷◌, arith, str_eq, if◌then◌else◌, if_split, lt→ltb, if_both, ltb, length,
}
use incus_compose.Placement.{Member, Service, keep_members}
use incus_compose.Placement.Order.{order_members}
use incus_compose.Placement.Deal.{length-order_members}
use incus_compose.Placement.Names.{
  targeted, Distinct, targeted-order_members, targeted-keep_members,
}
use incus_compose.Placement.Spread.{fill_targets_le}
use incus_compose.Placement.Yields.{Yields, IsInt, desired_on, length-keep_members, resolve-Yields}
use incus_compose.Placement.Resolve.{
  Env, Placing, placed, to_uint64, mode_of, wanted, max_replicas_of, preferences_of, constraints_of,
  is_number, is_none, names_of, assign, choose_targets, resolve_service_placement_env, has_some,
}

abbrev pub AtMost : String → ℕ → ℕ → List String → Type 0
AtMost name k desired targets = targeted name targets ≤ k

assign-AtMost :
    (name : String) (os : List Member) (desired : ℤ) (warn : Bool) (k : ℕ)
    → IsInt desired
    → targeted name (names_of os) ≤ 1
    → to_uint64 desired ≤ length os * k % 2 ^ 64
    → Yields (AtMost name k) (assign os desired warn)
unfolding assign
assign-AtMost name os (pos n) warn k fits one h =
    let n_of : n % 2 ^ 64 ≡ n = mod-eq_of_lt (omega arith) in
    fill_targets_le name os k n one (omega (arith, mod-le (length os * k) (2 ^ 64)))
assign-AtMost name os (negsuc n) warn k fits one h = tt

never_alone :
    (one global constraint preference : Bool) {limit : Bool}
    → limit ≡ true
    → one && not (global || constraint || preference || limit) ≡ true
    → ⊥
never_alone one global constraint preference limit_of h = ground arith

module _ (env : Env) (svc : Service) (scale : Option ℤ) (name : String) where
  abbrev Kept : Placing → Type 0
  Kept = Yields (AtMost name (max_replicas_of svc))

  choose_targets-AtMost :
      (global : Bool) (candidates : List Member) (desired : ℤ) (warn : Bool)
      → 0 < max_replicas_of svc
      → IsInt desired
      → targeted name (names_of candidates) ≤ 1
      → to_uint64 desired ≤ length candidates * max_replicas_of svc % 2 ^ 64
      → Kept (choose_targets env svc scale global candidates desired warn)
  unfolding choose_targets
  choose_targets-AtMost global candidates desired warn some_max fits one h =
      let preferred = env.server_name in
      let os = order_members preferred (preferences_of svc) candidates in
      let alone =
        if str_eq env.network_type "bridge" || not env.remote_pool
        then placed 1 (env.server_name ∷ []) warn
        else placed 1 ("" ∷ []) warn in
      let every = placed (length candidates) (names_of candidates) warn in
      let has_placement =
        global
        || has_some (constraints_of svc)
        || has_some (preferences_of svc)
        || ltb 0 (max_replicas_of svc) in
      if_split Kept (is_number desired 1 && not has_placement) alone
        (if global && is_none scale then every else assign os desired warn)
        (λ none_wanted. absurd (
          never_alone (is_number desired 1) global (has_some (constraints_of svc))
            (has_some (preferences_of svc)) (lt→ltb 0 (max_replicas_of svc) some_max) none_wanted))
        (λ placement.
          if_both Kept (global && is_none scale) every (assign os desired warn) (omega arith) (
            assign-AtMost name os desired warn (max_replicas_of svc) fits
              (omega (arith, targeted-order_members name preferred (preferences_of svc) candidates))
              (subst (λ l. to_uint64 desired ≤ l * max_replicas_of svc % 2 ^ 64)
                (sym (length-order_members preferred (preferences_of svc) candidates)) h)))

-- On a cluster of fewer than 2^63 members whose names differ, where max_replicas_per_node is set
-- and the count asked for is an int, no name is the target of more replicas than
-- max_replicas_per_node, whenever the service is placed at all.
pub replicas_within_max :
    (env : Env) (svc : Service) (scale : Option ℤ) (allow_local : Bool) (name : String)
    {desired : ℕ} {targets : List String} {warn : Bool}
    → env.clustered ≡ true
    → 0 < max_replicas_of svc
    → IsInt (wanted svc scale)
    → length env.members < 2 ^ 63
    → Distinct env.members
    → resolve_service_placement_env env svc scale allow_local ≡ placed desired targets warn
    → targeted name targets ≤ max_replicas_of svc
replicas_within_max env svc scale allow_local name clustered some_max fits few distinct found =
    subst (Yields (AtMost name (max_replicas_of svc))) found (
      resolve-Yields (AtMost name (max_replicas_of svc)) env svc scale allow_local clustered
        (omega arith)
        (λ cs parse some_kept within warn.
          let global = str_eq (mode_of svc) "global" in
          let candidates = keep_members cs env.members in
          let desired = desired_on svc scale candidates in
          let fewer = length-keep_members cs env.members in
          let int : IsInt desired =
            if_both IsInt (global && is_none scale) (pos (length candidates)) (wanted svc scale)
              (omega arith) fits in
          choose_targets-AtMost env svc scale name global candidates desired warn some_max int
            (omega (arith, targeted-keep_members name cs env.members, distinct name))
            (ground arith)))
