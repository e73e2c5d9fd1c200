-- ===== src/Checker/Room.antt =====
-- What folding an event (cmd/ic-healthd/checker) does to the results channel.
use incus_compose.Prelude.{
  ℕ, ◌≤◌, Bool, not, ◌&&◌, ◌||◌, [], ◌∷◌, ◌++◌, arith, length, length-append, ltb, str_eq, ltb→lt,
  if_both, if_split,
}
use incus_compose.Prelude.Dict.{Dict}
use incus_compose.Checker.Types.{
  Instance, InstanceResult, Outcome, done, blocked, panicked, ◌>>=◌, results_cap,
}
use incus_compose.Checker.Step.{tracked, is_restart, report_status}
use incus_compose.Checker.Config.{Decoders, Parsed, ok, err}
use incus_compose.Checker.World.{
  Lifecycle, started, resumed, stopped, shutdown, updated, Event, World, send_result,
  discovered_result,
}
use incus_compose.Checker.Events.{
  in_flight, save_instance, on_started, on_stopped, on_updated, forget, saved, dispatch,
  handle_instance_event, is_wanted, is_deleted, fold,
}

-- The results channel has lost nothing and is within its capacity; nothing has panicked.
abbrev pub Grows : World → Outcome World → Type 0
Grows w (done v) = (length w.results ≤ length v.results) × (length v.results ≤ results_cap)
Grows w blocked = Unit
Grows w panicked = ⊥

module _ (now : ℕ) (ev : Event) (w : World) (room : length w.results ≤ results_cap) where
  send_result-Grows :
      (res : InstanceResult) (instances : Dict Instance)
      → Grows w (send_result res (record w { instances = instances }))
  unfolding send_result
  send_result-Grows res instances =
      if_split (Grows w) (ltb (length w.results) results_cap) _ _
        (λ free.
          let e = length-append w.results (res ∷ []) in
          (omega (arith, e), omega (arith, e, ltb→lt _ _ free)))
        (λ full. tt)

  abbrev Handles : (Instance → World → Outcome World) → Type 0
  Handles next =
      (inst : Instance) (m : Dict Instance) → Grows w (next inst (record w { instances = m }))

  on_started-Handles : Handles (on_started now ev)
  unfolding on_started
  on_started-Handles inst m =
      if_both (λ v. Grows w (done v)) (in_flight inst.state) _ _ (omega arith, room)
        (omega arith, room)

  on_updated-Handles : Handles (on_updated ev)
  unfolding on_updated
  on_updated-Handles inst m =
      if_both (Grows w) (not inst.config.running) _ _ (omega arith, room) (omega arith, room)

  on_stopped-Handles : Handles (on_stopped now ev)
  unfolding on_stopped
  on_stopped-Handles inst m =
      let told = (report_status ev.project "stopped" inst).0 in
      if_both (Grows w) (not (tracked told.config.restart_policy)) _ _ (omega arith, room)
        (if_both (Grows w) (is_restart told.action) _ _ (omega arith, room) (omega arith, room))

  saved-Grows :
      (dec : Decoders) (next : Instance → World → Outcome World)
      → Handles next
      → Grows w (saved dec now ev next w)
  unfolding saved
  saved-Grows dec next handles = by_result (save_instance dec now ev w.instances)
    where
      by_result :
          (r : Dict Instance × Parsed Instance)
          → Grows w (elim r.1 [
            | err e ↦ send_result (discovered_result ev e) (record w { instances = r.0 })
            | ok inst ↦ next inst (record w { instances = r.0 })
          ])
      by_result (m, ok inst) = handles inst m
      by_result (m, err e) = send_result-Grows (discovered_result ev e) m

  dispatch-Grows : (dec : Decoders) (action : Lifecycle) → Grows w (dispatch dec now action ev w)
  unfolding dispatch forget
  dispatch-Grows dec started = saved-Grows dec (on_started now ev) on_started-Handles
  dispatch-Grows dec Lifecycle.restarted = saved-Grows dec (on_started now ev) on_started-Handles
  dispatch-Grows dec resumed = saved-Grows dec (on_started now ev) on_started-Handles
  dispatch-Grows dec stopped = saved-Grows dec (on_stopped now ev) on_stopped-Handles
  dispatch-Grows dec shutdown = saved-Grows dec (on_stopped now ev) on_stopped-Handles
  dispatch-Grows dec updated = saved-Grows dec (on_updated ev) on_updated-Handles
  dispatch-Grows dec _ = (omega arith, room)

  pub fold-Grows : (dec : Decoders) (serve : Event → Bool) → Grows w (fold dec serve now ev w)
  unfolding fold handle_instance_event forget
  fold-Grows dec serve = forwarded _ (
      if_both (Grows w) (not ev.failed && is_wanted ev.action) _ _
        (if_both (Grows w) (is_deleted ev.action || serve ev) _ _
          (if_both (Grows w) (str_eq ev.name "") _ _ (omega arith, room)
            (dispatch-Grows dec ev.action))
          (omega arith, room))
        (omega arith, room))
    where
      forwarded :
          (m : Outcome World)
          → Grows w m
          → Grows w (m >>= λ v. done (record v { forwarded = v.forwarded ++ ev ∷ [] }))
      forwarded (done v) h = h
      forwarded blocked h = tt
      forwarded panicked h = h
