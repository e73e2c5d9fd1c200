-- ===== src/Placement/Eligible.antt =====
-- The members that `resolveServicePlacementEnv` of project/placement.go targets.
use native.Mathlib.Nat.{mod-lt}
use incus_compose.Prelude.{
  ℤ, pos, negsuc, ℕ, zero, suc, ◌%◌, ◌≤◌, ◌<◌, ◌≡◌, refl, sym, ap, ◌∙◌, subst, Bool, true, not,
  ◌&&◌, ◌||◌, Option, String, List, [], ◌∷◌, arith, str_eq, str_eq_iff, if◌then◌else◌, if_split,
  if_both, ltb, length, inl, All, All-mono, count_if,
}
use incus_compose.Placement.{
  Member, Service, Constraint, online, matches_all, keep_members, parse_all,
}
use incus_compose.Placement.Order.{order_members}
use incus_compose.Placement.Deal.{length-order_members}
use incus_compose.Placement.Names.{targeted, targeted-order_members}
use incus_compose.Placement.Spread.{length-fill_targets}
use incus_compose.Placement.Yields.{Yields, Yields-mono, desired_on, resolve-Yields}
use incus_compose.Placement.Resolve.{
  Env, placed, name_at, fill_targets, mode_of, max_replicas_of, preferences_of, constraints_of,
  is_number, is_none, names_of, assign, choose_targets, resolve_service_placement_env, has_some,
}

-- Some member of the cluster has the name, is online and satisfies every constraint.
abbrev pub Eligible : List Constraint → List Member → String → Type 0
Eligible cs ms t = 0 < count_if (λ m. online m && matches_all cs m && str_eq m.server_name t) ms

eligible_kept :
    (cs : List Constraint) (ms : List Member) (t : String)
    → targeted t (names_of (keep_members cs ms))
      ≤ count_if (λ m. online m && matches_all cs m && str_eq m.server_name t) ms
unfolding keep_members
eligible_kept cs [] t = omega arith
eligible_kept cs (m ∷ ms) t =
    let kept = online m && matches_all cs m in
    let rest = count_if (λ m. online m && matches_all cs m && str_eq m.server_name t) ms in
    let here = online m && matches_all cs m && str_eq m.server_name t in
    if_split (λ l. targeted t (names_of l) ≤ (if here then suc rest else rest)) kept
      (m ∷ keep_members cs ms) (keep_members cs ms) (λ yes. ground (arith, eligible_kept cs ms t))
      (λ no. ground (arith, eligible_kept cs ms t))

abbrev Named : List Member → String → Type 0
Named ms t = 0 < targeted t (names_of ms)

Named-skip : (m : Member) (ms : List Member) (t : String) → Named ms t → Named (m ∷ ms) t
Named-skip m ms t h = ground arith

Named-here : (m : Member) (ms : List Member) → Named (m ∷ ms) m.server_name
Named-here m ms = ground (arith, (str_eq_iff m.server_name m.server_name).1 refl)

names_of-Named : (ms : List Member) → All (Named ms) (names_of ms)
names_of-Named [] = tt
names_of-Named (m ∷ ms) =
    (Named-here m ms, All-mono (Named-skip m ms) (names_of ms) (names_of-Named ms))

name_at-Named : (ms : List Member) (i : ℕ) → i < length ms → Named ms (name_at ms i)
name_at-Named [] i h = absurd (omega arith)
name_at-Named (m ∷ ms) zero h = Named-here m ms
name_at-Named (m ∷ ms) (suc i) h = Named-skip m ms (name_at ms i) (name_at-Named ms i (omega arith))

fill_targets-Named :
    (ms : List Member) (i n : ℕ) → 0 < length ms → All (Named ms) (fill_targets ms i n)
unfolding fill_targets
fill_targets-Named ms i zero h = tt
fill_targets-Named ms i (suc n) h =
    (name_at-Named ms (i % length ms) (mod-lt i h), fill_targets-Named ms (suc i) n h)

length-names_of : (ms : List Member) → length (names_of ms) ≡ length ms
length-names_of [] = refl
length-names_of (m ∷ ms) = ap suc (length-names_of ms)

-- One target for each replica, each of them the name of one of the members.
abbrev pub OnMembers : List Member → ℕ → List String → Type 0
OnMembers ms desired targets = (length targets ≡ desired) × All (Named ms) targets

module _ (env : Env) (svc : Service) (scale : Option ℤ) (candidates : List Member) where
  assign-OnMembers :
      (desired : ℤ) (warn : Bool)
      → 0 < length candidates
      → Yields
          (OnMembers candidates)
          (assign (order_members env.server_name (preferences_of svc) candidates) desired warn)
  unfolding assign
  assign-OnMembers (pos n) warn some_of_them =
      let os = order_members env.server_name (preferences_of svc) candidates in
      (
        length-fill_targets os 0 n,
        All-mono
            (λ t named.
              omega
                (arith, targeted-order_members t env.server_name (preferences_of svc) candidates))
            (fill_targets os 0 n)
            (fill_targets-Named os 0 n (
              omega (arith, length-order_members env.server_name (preferences_of svc) candidates))),
      )
  assign-OnMembers (negsuc n) warn some_of_them = tt

  choose_targets-OnMembers :
      (global : Bool) (desired : ℤ) (warn : Bool)
      → 0 < length candidates
      → global || has_some (constraints_of svc) ≡ true
      → Yields (OnMembers candidates) (choose_targets env svc scale global candidates desired warn)
  unfolding choose_targets
  choose_targets-OnMembers global desired warn some_of_them placement =
      let alone =
        if str_eq env.network_type "bridge" || not env.remote_pool
        then placed 1 (env.server_name ∷ []) warn
        else placed 1 ("" ∷ []) warn in
      let every = placed (length candidates) (names_of candidates) warn in
      let has_placement =
        global
        || has_some (constraints_of svc)
        || has_some (preferences_of svc)
        || ltb 0 (max_replicas_of svc) in
      let last =
        assign (order_members env.server_name (preferences_of svc) candidates) desired warn in
      if_split (Yields (OnMembers candidates)) (is_number desired 1 && not has_placement) alone
        (if global && is_none scale then every else last) (λ none_wanted. absurd (ground arith))
        (λ wanted_one.
          if_both (Yields (OnMembers candidates)) (global && is_none scale) every last
            (length-names_of candidates, names_of-Named candidates)
            (assign-OnMembers desired warn some_of_them))

-- What is proved of the choice among the kept members, in terms of the whole cluster.
OnMembers-Eligible :
    (cs kept : List Constraint) (ms : List Member)
    → kept ≡ cs
    → (n : ℕ) (ts : List String) → OnMembers (keep_members kept ms) n ts
    → (length ts ≡ n) × All (Eligible cs ms) ts
OnMembers-Eligible cs kept ms same n ts h = (
  h.0,
  All-mono
      (λ t named.
        subst (λ c. Eligible c ms t) same (let bound = eligible_kept kept ms t in omega arith))
      ts h.1,
)

-- On a cluster, when a service in global mode or with constraints, which parse, is placed, it has
-- one target for each replica, and each target is the name of a member that is online and satisfies
-- every constraint.
pub targets-Eligible :
    (env : Env) (svc : Service) (scale : Option ℤ) (allow_local : Bool) (cs : List Constraint)
    {desired : ℕ} {targets : List String} {warn : Bool}
    → env.clustered ≡ true
    → str_eq (mode_of svc) "global" || has_some (constraints_of svc) ≡ true
    → parse_all (constraints_of svc) ≡ inl cs
    → resolve_service_placement_env env svc scale allow_local ≡ placed desired targets warn
    → (length targets ≡ desired) × All (Eligible cs env.members) targets
targets-Eligible env svc scale allow_local cs clustered placement parse found =
    let P : ℕ → List String → Type 0 = λ n ts. (length ts ≡ n) × All (Eligible cs env.members) ts in
    subst (Yields P) found (
      resolve-Yields P env svc scale allow_local clustered (refl, tt)
        (λ kept parse_kept some_kept within warn.
          let candidates = keep_members kept env.members in
          let global = str_eq (mode_of svc) "global" in
          let desired = desired_on svc scale candidates in
          let same = sym parse_kept ∙ parse in
          Yields-mono (OnMembers-Eligible cs kept env.members (cc same))
            (choose_targets env svc scale global candidates desired warn)
            (choose_targets-OnMembers env svc scale candidates global desired warn some_kept
              placement)))
