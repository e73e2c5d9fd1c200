-- ===== src/Checker/Replies.antt =====
-- `handleInstanceResult` on a sound fleet.
use incus_compose.Prelude.{
  ℕ, ◌+◌, ◌/◌, ◌%◌, ◌≡◌, refl, false, Option, none, some, String, List, [], ◌∷◌, ◌++◌, ◌==◌,
  if◌then◌else◌, if_both, str_eq,
}
use incus_compose.Prelude.Dict.{lookup, Every-insert, Every-lookup}
use incus_compose.Checker.Types.{
  Instance, idle, parked, CheckError, intentionally_stopped, ResultKind, discovered, checked,
  restarted, status_written, InstanceResult, Effect, cancel, Outcome, done, panicked, ◌>>=◌,
}
use incus_compose.Checker.Step.{tracked, is_restart, instance_started, report_status}
use incus_compose.Checker.World.{World, key_of, keep}
use incus_compose.Checker.Actions.{settle}
use incus_compose.Checker.Results.{
  contexts_equal, adopt, rand_below, schedule_restart, expire_start, stopped_found, check_passed,
  verdict, next_check, is_not_running, check_ended, restart_ended, release_context, if_current,
  status_ended, dispatch_result, handle_instance_result,
}
use incus_compose.Checker.Sound.{
  IsSound, base_restart_delay-InRange, widen-InRange, settled-IsTracked, check_failed-IsSound,
  report_status-IsSound,
}
use incus_compose.Checker.Fold.{Ensures, Ensures-bind, AllSound}

-- What the actions of this daemon report: no configuration of their own.
pub record IsReport (res : InstanceResult) : Type 0 where
  pub no_config : res.config ≡ none

module _ (n now : ℕ) where
  schedule_restart-IsSound :
      (inst : Instance) → IsSound n inst → IsSound n (schedule_restart now inst)
  unfolding schedule_restart
  schedule_restart-IsSound inst v = record {
    action = v.action;
    delay = widen-InRange v.delay;
    config = v.config;
  }

  stopped_found-IsSound :
      (project : String) (inst : Instance)
      → IsSound n inst
      → IsSound n (stopped_found now project inst).0
  unfolding stopped_found
  stopped_found-IsSound project inst v =
      let halted = record inst { config = record (inst.config) { running = false } } in
      let told = (report_status project "stopped" halted).0 in
      let t = report_status-IsSound n project "stopped" halted (record {
        action = v.action;
        delay = v.delay;
        config = record {
          start_interval_pos = v.config.start_interval_pos;
          interval_pos = v.config.interval_pos;
          timeout_pos = v.config.timeout_pos;
          retries_pos = v.config.retries_pos;
        };
      }) in
      if_both (IsSound n) (tracked told.config.restart_policy) (schedule_restart now told) told
        (schedule_restart-IsSound told t) t

  verdict-IsSound :
      (e : Option CheckError) (inst : Instance) → IsSound n inst → IsSound n (verdict now e inst).0
  unfolding check_passed
  verdict-IsSound none inst v = record {
    action = v.action;
    delay = base_restart_delay-InRange inst.config;
    config = v.config;
  }
  verdict-IsSound (some e) inst v = check_failed-IsSound n now inst v

  next_check-Ensures :
      (r : ℕ) (inst : Instance) → IsSound n inst → Ensures (IsSound n) (next_check now r inst)
  unfolding next_check rand_below
  next_check-Ensures r inst v =
      if_both (Ensures (IsSound n)) (is_restart inst.action) _ _ v
        (jittered (if inst.in_restart then inst.config.start_interval else inst.config.interval))
    where
      jittered :
          (interval : ℕ)
          → Ensures (IsSound n) (
              (if interval / 4 == 0 then panicked else done (r % (interval / 4))) >>= λ jitter.
              done (record inst { due = now + (interval + jitter) }))
      jittered interval =
          Ensures-bind {A = ℕ} (λ _. Unit {0}) (IsSound n) _ _
            (if_both (Ensures (λ _. Unit {0})) (interval / 4 == 0) panicked
              (done (r % (interval / 4))) tt tt)
            (λ j _. record { action = v.action; delay = v.delay; config = v.config })

  check_ended-Ensures :
      (r : ℕ) (res : InstanceResult) (inst : Instance)
      → IsReport res
      → IsSound n inst
      → Ensures (λ (o : Instance × List Effect). IsSound n o.0) (check_ended now r res inst)
  unfolding check_ended
  check_ended-Ensures r res inst p v =
      if_both (Ensures (λ (o : Instance × List Effect). IsSound n o.0)) (is_not_running res.err) _ _
        (stopped_found-IsSound res.project ready ready-IsSound)
        (Ensures-bind (IsSound n) (λ (o : Instance × List Effect). IsSound n o.0) _ _
          (next_check-Ensures r _ (
            report_status-IsSound n res.project (verdict now res.err ready).1
              (verdict now res.err ready).0 (verdict-IsSound res.err ready ready-IsSound)))
          (λ i h. h))
    where
      begun : Instance
      begun = expire_start now (settle (record inst { state = idle }))

      begun-IsSound : IsSound n begun
      begun-IsSound =
          unfold expire_start in
          record { action = settled-IsTracked n idle refl; delay = v.delay; config = v.config }

      ready : Instance
      ready = adopt res.config begun

      ready-IsSound : IsSound n ready
      ready-IsSound = rw p.no_config (unfold adopt in begun-IsSound)

-- A restart ends in a settled instance, which is sound in any resting state.
restarted-IsSound :
    (n now : ℕ) (e : Option CheckError) (inst : Instance)
    → IsSound n inst
    → IsSound n (restart_ended now e (settle inst))
unfolding restart_ended
restarted-IsSound n now none inst v =
    unfold instance_started in
    record {
      action = settled-IsTracked n idle refl;
      delay = v.delay;
      config = record {
        start_interval_pos = v.config.start_interval_pos;
        interval_pos = v.config.interval_pos;
        timeout_pos = v.config.timeout_pos;
        retries_pos = v.config.retries_pos;
      };
    }
restarted-IsSound n now (some intentionally_stopped) inst v = record {
  action = settled-IsTracked n parked refl;
  delay = v.delay;
  config = v.config;
}
restarted-IsSound n now (some _) inst v =
    schedule_restart-IsSound n now (record (settle inst) { state = idle })
      (record { action = settled-IsTracked n idle refl; delay = v.delay; config = v.config })

released : (inst : Instance) → Ensures (λ _. Unit {0}) (release_context inst)
unfolding release_context
released inst = by_cancel inst.action_cancel
  where
    by_cancel :
        (c : Option ℕ)
        → Ensures {A = List Effect}
            (λ _. Unit {0})
            (elim c [ none ↦ panicked | some c ↦ done (cancel c ∷ []) ])
    by_cancel none = tt
    by_cancel (some c) = tt

module _ (now r : ℕ) (res : InstanceResult) (w : World) (h : AllSound w) where
  abbrev held : Option Instance
  held = lookup (key_of res.project res.name) w.instances

  if_current-Ensures :
      (next : Instance → Outcome World)
      → ((inst : Instance) → IsSound w.next_context inst → Ensures AllSound (next inst))
      → Ensures AllSound (if_current res next w)
  unfolding if_current
  if_current-Ensures next k =
      by_held held (λ inst e. Every-lookup (IsSound w.next_context) _ w.instances h e)
    where
      by_held :
          (o : Option Instance)
          → ((inst : Instance) → o ≡ some inst → IsSound w.next_context inst)
          → Ensures AllSound (elim o [
            | none ↦ done w
            | some inst ↦ if contexts_equal res.ctx inst.action_context then next inst else done w
          ])
      by_held none f = h
      by_held (some inst) f =
          if_both (Ensures AllSound) (contexts_equal res.ctx inst.action_context) _ _
            (k inst (f inst refl)) h

  kept :
      (inst : Instance) (fx : List Effect)
      → IsSound w.next_context inst
      → AllSound (keep (key_of res.project res.name) inst fx w)
  kept inst fx v =
      Every-insert (IsSound w.next_context) (key_of res.project res.name) inst w.instances v h

  status_ended-AllSound : AllSound (status_ended res w)
  unfolding status_ended
  status_ended-AllSound =
      by_held held (λ inst e. Every-lookup (IsSound w.next_context) _ w.instances h e) res.err
    where
      by_held :
          (o : Option Instance)
          → ((inst : Instance) → o ≡ some inst → IsSound w.next_context inst)
          → (e : Option CheckError)
          → AllSound (elim o [
            | none ↦ w
            | some inst ↦ elim e [
              | none ↦ w
              | some c ↦
                  if str_eq inst.status res.status
                  then keep (key_of res.project res.name) (record inst { status = "" }) [] w
                  else w
            ]
          ])
      by_held none f e = h
      by_held (some inst) f none = h
      by_held (some inst) f (some c) =
          if_both AllSound (str_eq inst.status res.status) _ _
            (let v = f inst refl in
              kept (record inst { status = "" }) []
                (record { action = v.action; delay = v.delay; config = v.config }))
            h

  dispatch_result-Ensures :
      (kind : ResultKind) → IsReport res → Ensures AllSound (dispatch_result now r kind res w)
  unfolding dispatch_result
  dispatch_result-Ensures discovered p = h
  dispatch_result-Ensures status_written p = status_ended-AllSound
  dispatch_result-Ensures checked p = if_current-Ensures _ (λ inst v.
      Ensures-bind (λ _. Unit {0}) AllSound (release_context inst) _ (released inst)
        (λ fx _.
          Ensures-bind (λ (o : Instance × List Effect). IsSound w.next_context o.0) AllSound
            (check_ended now r res inst) _ (check_ended-Ensures w.next_context now r res inst p v)
            (λ o s. kept o.0 (fx ++ o.1) s)))
  dispatch_result-Ensures restarted p = if_current-Ensures _ (λ inst v.
      Ensures-bind (λ _. Unit {0}) AllSound (release_context inst) _ (released inst)
        (λ fx _. kept _ fx (restarted-IsSound w.next_context now res.err inst v)))

  -- Handling any report of an action, which carries no configuration, leaves every instance of a
  -- sound fleet sound where the handler ends.
  pub handle_instance_result-AllSound :
      IsReport res → Ensures AllSound (handle_instance_result now r res w)
  unfolding handle_instance_result
  handle_instance_result-AllSound p = dispatch_result-Ensures res.kind p
