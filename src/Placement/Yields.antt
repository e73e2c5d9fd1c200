-- ===== src/Placement/Yields.antt =====
-- How a property of the targets goes through `resolveServicePlacementEnv` of project/placement.go.
use incus_compose.Prelude.{
  ℤ, pos, negsuc, ℕ, ◌*◌, ◌%◌, ◌^◌, ◌≤◌, ◌<◌, ◌≡◌, refl, Bool, true, false, not, ◌&&◌, ◌||◌, Option,
  String, List, [], ◌∷◌, arith, str_eq, if◌then◌else◌, if_split, if_both, ltb, length, inl, inr,
  ◌⊎◌,
}
use incus_compose.Placement.{
  Member, Service, Constraint, Parse, keep_members, parse_all, filter_cluster_members,
}
use incus_compose.Placement.Resolve.{
  Env, Placing, placed, refused, panicked, unsupported_mode, bad_constraint, too_many_replicas,
  local_storage, to_uint64, mode_of, wanted, max_replicas_of, constraints_of, is_number, is_none,
  choose_targets, check_limits, place_on, standalone, resolve_service_placement_env, more_than_one,
}

-- What every placing has to satisfy that yields targets.
abbrev pub Yields : (ℕ → List String → Type 0) → Placing → Type 0
Yields P (placed desired targets warn) = P desired targets
Yields P (refused why) = Unit
Yields P panicked = Unit

pub Yields-mono :
    {P Q : ℕ → List String → Type 0}
    → ((n : ℕ) (ts : List String) → P n ts → Q n ts)
    → (placing : Placing) → Yields P placing
    → Yields Q placing
Yields-mono f (placed n ts warn) h = f n ts h
Yields-mono f (refused why) h = tt
Yields-mono f panicked h = tt

-- An `int`: 63 bits and a sign.
abbrev pub IsInt : ℤ → Type 0
IsInt (pos n) = n < 2 ^ 63
IsInt (negsuc n) = n < 2 ^ 63

-- The replicas fit on the candidates.
abbrev pub Within : ℕ → List Member → ℤ → Type 0
Within k candidates desired =
    ltb 0 k && ltb (length candidates * k % 2 ^ 64) (to_uint64 desired) ≡ false

-- The count that a list of candidates is to have replicas for.
abbrev pub desired_on : Service → Option ℤ → List Member → ℤ
desired_on svc scale candidates =
    if str_eq (mode_of svc) "global" && is_none scale
    then pos (length candidates)
    else wanted svc scale

pub length-keep_members :
    (cs : List Constraint) (ms : List Member) → length (keep_members cs ms) ≤ length ms
unfolding keep_members
length-keep_members cs [] = omega arith
length-keep_members cs (m ∷ ms) = ground (arith, length-keep_members cs ms)

module _ (P : ℕ → List String → Type 0) (env : Env) (svc : Service) (scale : Option ℤ) where
  check_limits-Yields :
      (allow_local global : Bool) (candidates : List Member) (desired : ℤ)
      → P 0 []
      → (Within (max_replicas_of svc) candidates desired
          → (warn : Bool) → Yields P (choose_targets env svc scale global candidates desired warn))
      → Yields P (check_limits env svc scale allow_local global candidates desired)
  unfolding check_limits
  check_limits-Yields allow_local global candidates desired nothing rest =
      let k = max_replicas_of svc in
      let local = (more_than_one desired || global) && not env.remote_pool in
      let choice = choose_targets env svc scale global candidates desired local in
      let beyond = ltb 0 k && ltb (length candidates * k % 2 ^ 64) (to_uint64 desired) in
      let local_test = local && not (allow_local || svc.allow_local_storage) in
      let last = if local_test then refused local_storage else choice in
      let limited = if beyond then refused too_many_replicas else last in
      if_both (Yields P) (is_number desired 0) (placed 0 [] false) limited nothing (
        if_split (Yields P) beyond (refused too_many_replicas) last (λ over. tt)
          (λ within.
            if_both (Yields P) local_test (refused local_storage) choice tt (rest within local)))

  place_on-Yields :
      (allow_local : Bool) (candidates : List Member)
      → let global = str_eq (mode_of svc) "global" in
        P 0 []
        → (0 < length candidates
            → Within (max_replicas_of svc) candidates (desired_on svc scale candidates)
            → (warn : Bool)
            → Yields P (
                choose_targets env svc scale global candidates
                  (desired_on svc scale candidates)
                  warn))
        → Yields P (place_on env svc scale allow_local global candidates (wanted svc scale))
  unfolding place_on
  place_on-Yields allow_local [] nothing rest = tt
  place_on-Yields allow_local (m ∷ ms) nothing rest =
      check_limits-Yields allow_local (str_eq (mode_of svc) "global") (m ∷ ms)
        (desired_on svc scale (m ∷ ms)) nothing (rest (omega arith))

  filtered-Yields :
      (parse : (List Constraint) ⊎ Parse) (onward : List Member → Placing)
      → ((cs : List Constraint) → parse ≡ inl cs → Yields P (onward (keep_members cs env.members)))
      → Yields P
          (elim (elim parse as (λ r. (List Member) ⊎ Parse) [
            | inl cs ↦ inl (keep_members cs env.members)
            | inr e ↦ inr e
          ])
            as (λ r. Placing) [
              | inl candidates ↦ onward candidates
              | inr e ↦ refused bad_constraint
            ])
  filtered-Yields (inl cs) onward h = h cs refl
  filtered-Yields (inr e) onward h = tt

  -- On a cluster, it is enough to look at the choice among the members that the filter keeps.
  pub resolve-Yields :
      (allow_local : Bool)
      → env.clustered ≡ true
      → P 0 []
      → ((cs : List Constraint)
          → parse_all (constraints_of svc) ≡ inl cs
          → let candidates = keep_members cs env.members in
            0 < length candidates
            → Within (max_replicas_of svc) candidates (desired_on svc scale candidates)
            → (warn : Bool)
            → Yields P (
                choose_targets env svc scale
                  (str_eq (mode_of svc) "global")
                  candidates
                  (desired_on svc scale candidates)
                  warn))
      → Yields P (resolve_service_placement_env env svc scale allow_local)
  unfolding resolve_service_placement_env filter_cluster_members
  resolve-Yields allow_local clustered nothing rest =
      let global = str_eq (mode_of svc) "global" in
      let asked = wanted svc scale in
      let alone = standalone (if global && is_none scale then pos 1 else asked) in
      let onward : List Member → Placing =
        λ candidates. place_on env svc scale allow_local global candidates asked in
      let chosen : Placing = elim (filter_cluster_members env.members (constraints_of svc)) [
        | inl candidates ↦ onward candidates
        | inr e ↦ refused bad_constraint
      ] in
      if_both (Yields P) (not (str_eq (mode_of svc) "replicated" || global))
        (refused unsupported_mode) (if not env.clustered then alone else chosen) tt
        (if_split (Yields P) (not env.clustered) alone chosen (λ single. absurd cc)
          (λ several. filtered-Yields (parse_all (constraints_of svc)) onward (λ cs parse.
            place_on-Yields allow_local (keep_members cs env.members) nothing (rest cs parse))))
