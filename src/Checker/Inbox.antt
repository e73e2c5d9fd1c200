-- ===== src/Checker/Inbox.antt =====
-- The drain of Run (cmd/ic-healthd/checker/checker.go) against the results channel.
use incus_compose.Prelude.{
  ℕ, zero, suc, ◌+◌, ◌≤◌, ◌<◌, ◌≡◌, refl, ap, ◌∙◌, Bool, true, false, List, [], ◌∷◌, ◌++◌, ◌⊎◌, inl,
  inr, arith, length, length-append, ltb, str_eq, Bool-cases, ltb→lt,
}
use incus_compose.Prelude.Dict.{Dict, delete}
use incus_compose.Checker.Types.{
  Instance, CheckError, Outcome, done, blocked, panicked, ◌>>=◌, results_cap,
}
use incus_compose.Checker.Config.{Decoders, Parsed, ok, err, parse_instance_config}
use incus_compose.Checker.World.{
  Lifecycle, started, resumed, stopped, shutdown, updated, deleted, Event, World, inst_key,
  send_result, discovered_result,
}
use incus_compose.Checker.Room.{Grows, fold-Grows}
use incus_compose.Checker.Events.{
  save_instance, saved, dispatch, handle_instance_event, is_wanted, is_deleted, fold, drain,
}

-- The actions that read the configuration of the instance.
abbrev pub is_saved : Lifecycle → Bool
is_saved deleted = false
is_saved Lifecycle.renamed = false
is_saved Lifecycle.other = false
is_saved _ = true

module _ (dec : Decoders) (serve : Event → Bool) where
  -- An event of a served instance whose configuration is refused, as one with no health check is.
  pub record IsUnchecked (ev : Event) : Type 0 where
    pub error : CheckError
    pub acts : ev.failed ≡ false
    pub named : str_eq ev.name "" ≡ false
    pub reads : is_saved ev.action ≡ true
    pub served : serve ev ≡ true
    pub enriched : ev.enriched_instance ≡ true
    pub refused : parse_instance_config dec ev.config ev.running ≡ err error

  -- There are so many of them among the events.
  abbrev pub Holds : ℕ → List Event → Type 0
  Holds zero evs = Unit
  Holds (suc k) [] = ⊥
  Holds (suc k) (ev ∷ evs) = (IsUnchecked ev × Holds k evs) ⊎ Holds (suc k) evs

  -- What folding such an event does to the world, but for the send.
  abbrev dropped : Event → World → World
  dropped ev w = record w { instances = delete (inst_key ev) w.instances }

  save_unchecked :
      (now : ℕ) (ev : Event) (w : World) (u : IsUnchecked ev)
      → save_instance dec now ev w.instances ≡ (delete (inst_key ev) w.instances, err u.error)
  unfolding save_instance
  save_unchecked now ev w u = rw (u.enriched, u.refused)

  saved_unchecked :
      (now : ℕ) (ev : Event) (next : Instance → World → Outcome World) (w : World)
      (u : IsUnchecked ev)
      → saved dec now ev next w ≡ send_result (discovered_result ev u.error) (dropped ev w)
  unfolding saved
  saved_unchecked now ev next w u = ap outcome (save_unchecked now ev w u)
    where
      outcome : Dict Instance × Parsed Instance → Outcome World
      outcome r = elim r.1 [
        | err e ↦ send_result (discovered_result ev e) (record w { instances = r.0 })
        | ok inst ↦ next inst (record w { instances = r.0 })
      ]

  dispatch_unchecked :
      (now : ℕ) (action : Lifecycle) (ev : Event) (w : World) (u : IsUnchecked ev)
      → is_saved action ≡ true
      → dispatch dec now action ev w ≡ send_result (discovered_result ev u.error) (dropped ev w)
  unfolding dispatch
  dispatch_unchecked now started ev w u e = saved_unchecked now ev _ w u
  dispatch_unchecked now Lifecycle.restarted ev w u e = saved_unchecked now ev _ w u
  dispatch_unchecked now resumed ev w u e = saved_unchecked now ev _ w u
  dispatch_unchecked now stopped ev w u e = saved_unchecked now ev _ w u
  dispatch_unchecked now shutdown ev w u e = saved_unchecked now ev _ w u
  dispatch_unchecked now updated ev w u e = saved_unchecked now ev _ w u
  dispatch_unchecked now deleted ev w u e = absurd (ground (arith, e))
  dispatch_unchecked now Lifecycle.renamed ev w u e = absurd (ground (arith, e))
  dispatch_unchecked now Lifecycle.other ev w u e = absurd (ground (arith, e))

  wanted_saved :
      (action : Lifecycle)
      → is_saved action ≡ true
      → (is_wanted action ≡ true) × (is_deleted action ≡ false)
  wanted_saved started e = (refl, refl)
  wanted_saved Lifecycle.restarted e = (refl, refl)
  wanted_saved resumed e = (refl, refl)
  wanted_saved stopped e = (refl, refl)
  wanted_saved shutdown e = (refl, refl)
  wanted_saved updated e = (refl, refl)
  wanted_saved deleted e = absurd (ground (arith, e))
  wanted_saved Lifecycle.renamed e = absurd (ground (arith, e))
  wanted_saved Lifecycle.other e = absurd (ground (arith, e))

  fold_unchecked :
      (now : ℕ) (ev : Event) (w : World) (u : IsUnchecked ev)
      → fold dec serve now ev w ≡ (
          send_result (discovered_result ev u.error) (dropped ev w) >>= λ v.
          done (record v { forwarded = v.forwarded ++ ev ∷ [] }))
  unfolding fold handle_instance_event
  fold_unchecked now ev w u =
      let known = wanted_saved ev.action u.reads in
      simp (
        u.acts,
        known.0,
        known.1,
        u.served,
        u.named,
        dispatch_unchecked now ev.action ev w u u.reads,
      )

  sent : (ev : Event) → CheckError → World → World
  sent ev e w = record w {
    instances = delete (inst_key ev) w.instances;
    results = w.results ++ discovered_result ev e ∷ [];
    forwarded = w.forwarded ++ ev ∷ [];
  }

  fold_room :
      (now : ℕ) (ev : Event) (w : World) (u : IsUnchecked ev)
      → ltb (length w.results) results_cap ≡ true
      → fold dec serve now ev w ≡ done (sent ev u.error w)
  unfolding send_result sent
  fold_room now ev w u free = fold_unchecked now ev w u ∙ simp free

  fold_full :
      (now : ℕ) (ev : Event) (w : World)
      → IsUnchecked ev
      → ltb (length w.results) results_cap ≡ false
      → fold dec serve now ev w ≡ blocked
  unfolding send_result
  fold_full now ev w u full = fold_unchecked now ev w u ∙ simp full

  length-sent :
      (ev : Event) (e : CheckError) (w : World)
      → length (sent ev e w).results ≡ length w.results + 1
  unfolding sent
  length-sent ev e w = length-append w.results _

  -- A drain of an inbox ends blocked on a full results channel, whatever else is on it, as soon as
  -- it holds more events than the channel has room for that are of served instances, read their
  -- configuration and have it refused, as where there is no health check.
  pub drain-blocked :
      (now k : ℕ) (inbox : List Event) (w : World)
      → Holds k inbox
      → length w.results ≤ results_cap
      → results_cap < length w.results + k
      → drain dec serve now inbox w ≡ blocked
  unfolding drain
  drain-blocked now zero inbox w h room over = absurd (omega arith)
  drain-blocked now (suc k) [] w h room over = absurd h
  drain-blocked now (suc k) (ev ∷ inbox) w (inl (u, h)) room over =
      elim (Bool-cases (ltb (length w.results) results_cap)) [
        | inr full ↦ rw (fold_full now ev w u full) refl
        | inl free ↦
            let e = length-sent ev u.error w in
            rw (fold_room now ev w u free) (
              drain-blocked now k inbox (sent ev u.error w) h (omega (arith, e, ltb→lt _ _ free))
                (omega (arith, e)))
      ]
  drain-blocked now (suc k) (ev ∷ inbox) w (inr h) room over =
      onward (fold dec serve now ev w) (fold-Grows now ev w room dec serve)
        (λ v more fits. drain-blocked now (suc k) inbox v h fits (omega (arith, more)))
    where
      onward :
          (m : Outcome World)
          → Grows w m
          → ((v : World)
              → length w.results ≤ length v.results
              → length v.results ≤ results_cap
              → drain dec serve now inbox v ≡ blocked)
          → (m >>= drain dec serve now inbox) ≡ blocked
      onward (done v) (more, fits) rest = rest v more fits
      onward blocked g rest = refl
      onward panicked g rest = absurd g
