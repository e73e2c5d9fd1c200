-- ===== src/Enricher/Reader/Settled.antt =====
-- What a read of an instance comes back with: `incusReader` of ievent/enricher/reads.go.
use incus_compose.Prelude.{
  ◌≡◌, refl, subst, ◌⊎◌, inl, inr, Bool, true, false, not, ◌||◌, some, List, [], ◌∷◌, arith,
  if◌then◌else◌, if_split, if_both, In,
}
use incus_compose.Enricher.Reader.{
  Instance, State, is_running, is_starting, has_nic_devices, has_addresses, Turn, expired, failed,
  ticked, Outcome, landed, timed_out, refreshed, poll, settled_at_once, Read, unserved, outcome,
  got, incus_reader,
}

-- The state is what the read waits for, or, where it waits for the instance to run, one of an
-- instance that neither runs nor starts.
abbrev pub Settled : Bool → Bool → Instance → State → Type 0
Settled wait want inst state =
    (settled_at_once wait want inst state ≡ true)
    ⊎ ((wait ≡ true) × (is_running state.status ≡ false) × (is_starting state.status ≡ false))

-- A read that has ended: its context has, or the state is settled.
abbrev pub Ended : Bool → Bool → Instance → Outcome → Type 0
Ended wait want inst out =
    ((i : Instance) × (s : State) × (out ≡ timed_out i s))
    ⊎ ((i : Instance) × (s : State) × (out ≡ landed i s) × Settled wait want inst s)

module _ (want : Bool) (inst : Instance) where
  poll-Ended :
      (wait : Bool) (turns : List Turn) (state : State)
      → In expired turns
      → Ended wait want inst (poll wait turns inst state)
  unfolding poll settled_at_once
  poll-Ended wait [] state h = absurd h
  poll-Ended wait (expired ∷ turns) state h = inl (inst, state, refl)
  poll-Ended wait (failed ended ∷ turns) state (inl this) = absurd cc
  poll-Ended wait (failed ended ∷ turns) state (inr h) =
      if_both (Ended wait want inst) ended (timed_out inst state) (poll wait turns inst state)
        (inl (inst, state, refl)) (poll-Ended wait turns state h)
  poll-Ended wait (ticked now again ∷ turns) state (inl this) = absurd cc
  poll-Ended true (ticked now again ∷ turns) state (inr h) =
      let rest = poll-Ended true turns now h in
      let later = poll true turns inst now in
      let ready = not (has_nic_devices inst) || has_addresses now.network in
      let back = landed (refreshed inst again) now in
      if_split (Ended true want inst) (is_running now.status) (if ready then back else later)
        (if not (is_starting now.status) then landed inst now else later)
        (λ runs.
          if_split (Ended true want inst) ready back later
            (λ is_ready. inr (refreshed inst again, now, refl, inl (ground arith)))
            (λ not_yet. rest))
        (λ stopped.
          if_split (Ended true want inst) (not (is_starting now.status)) (landed inst now) later
            (λ not_starting. inr (inst, now, refl, inr (refl, stopped, ground arith)))
            (λ not_yet. rest))
  poll-Ended false (ticked now again ∷ turns) state (inr h) =
      if_split (Ended false want inst) (not (is_running now.status) || has_addresses now.network)
        (landed inst now) (poll false turns inst now)
        (λ is_ready. inr (inst, now, refl, inl (ground arith)))
        (λ not_yet. poll-Ended false turns now h)

outcome-inj : {a b : Outcome} → outcome a ≡ outcome b → a ≡ b
outcome-inj e = cc e

-- When the context of a read ends at some turn of its poll, a read that got the instance and a
-- first state of it, and serves it, comes back: either timed out, or with a state that is what the
-- read waits for or, where it waits for the instance to run, with one that neither runs nor starts.
pub incus_reader-Ended :
    (serves : Instance → Bool) (want wait : Bool) (inst : Instance) (state : State)
    (turns : List Turn) (out : Outcome)
    → In expired turns
    → incus_reader serves want wait (got inst) (some state) turns ≡ outcome out
    → Ended wait want inst out
unfolding incus_reader
incus_reader-Ended serves want wait inst state turns out ends e =
    let first : Outcome =
      if settled_at_once wait want inst state
      then landed inst state
      else poll wait turns inst state in
    let P : Read → Type 0 = λ r. r ≡ outcome out → Ended wait want inst out in
    if_both P (not (serves inst)) (unserved inst) (outcome first) (λ no. absurd cc)
      (λ yes. subst (Ended wait want inst) (outcome-inj yes) (
        if_split (Ended wait want inst) (settled_at_once wait want inst state) (landed inst state)
          (poll wait turns inst state) (λ at_once. inr (inst, state, refl, inl at_once))
          (λ later. poll-Ended want inst wait turns state ends)))
      e
