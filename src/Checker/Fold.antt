-- ===== src/Checker/Fold.antt =====
-- Folding an event keeps every instance of the health checker sound, whatever the event says.
use incus_compose.Prelude.{
  ℕ, ◌≡◌, refl, Bool, true, false, not, ◌&&◌, ◌||◌, Option, none, some, String, str_eq, ltb, length,
  if◌then◌else◌, if_both,
}
use incus_compose.Prelude.Dict.{
  Dict, lookup, insert, delete, Every, Every-insert, Every-delete, Every-lookup,
}
use incus_compose.Checker.Types.{
  InstanceConfig, Instance, idle, parked, InstanceResult, results_cap, Outcome, done, blocked,
  panicked, ◌>>=◌,
}
use incus_compose.Checker.Step.{tracked, is_check, is_restart, report_status}
use incus_compose.Checker.Config.{
  Decoders, Parsed, ok, err, parse_instance_config, IsChecked, parse_instance_config-IsChecked,
}
use incus_compose.Checker.World.{
  Lifecycle, started, resumed, stopped, shutdown, updated, deleted, Event, World, inst_key,
  send_result, discovered_result,
}
use incus_compose.Checker.Events.{
  is_parked, in_flight, new_instance, refreshed, current, folded, save_instance, on_started,
  on_stopped, on_updated, forget, saved, dispatch, handle_instance_event, is_wanted, is_deleted,
  fold,
}
use incus_compose.Checker.Sound.{
  IsSound, base_restart_delay-InRange, widen-InRange, rest-IsTracked, settled-IsTracked,
  instance_started-IsSound, report_status-IsSound,
}

-- What is said of the value of a handler that ends.
abbrev pub Ensures {ℓ κ} : {A : Type ℓ} → (A → Type κ) → Outcome A → Type κ
Ensures P (done a) = P a
Ensures P _ = Unit

pub Ensures-bind {ℓ κ} :
    {A B : Type ℓ} (P : A → Type κ) (Q : B → Type κ) (m : Outcome A) (f : A → Outcome B)
    → Ensures P m
    → ((a : A) → P a → Ensures Q (f a))
    → Ensures Q (m >>= f)
Ensures-bind P Q (done a) f h k = k a h
Ensures-bind P Q blocked f h k = tt
Ensures-bind P Q panicked f h k = tt

-- Every instance of the world is sound.
abbrev pub AllSound : World → Type 0
AllSound w = Every (IsSound w.next_context) w.instances

module _ (n now : ℕ) where
  new_instance-IsSound :
      (ev : Event) (cfg : InstanceConfig) → IsChecked cfg → IsSound n (new_instance now ev cfg)
  unfolding new_instance
  new_instance-IsSound ev cfg c = record {
    action = settled-IsTracked n _ (resting cfg.running);
    delay = base_restart_delay-InRange cfg;
    config = c;
  }
    where
      resting : (b : Bool) → in_flight (if b then idle else parked) ≡ false
      resting true = refl
      resting false = refl

  refreshed-IsSound :
      (cfg : InstanceConfig) (inst : Instance) → IsSound n inst → IsSound n (refreshed now cfg inst)
  unfolding refreshed
  refreshed-IsSound cfg inst v =
      if_both (IsSound n) (not cfg.running && is_check inst.action) _ _
        (record {
          action = rest-IsTracked parked refl v.action;
          delay = v.delay;
          config = v.config;
        })
        (if_both (IsSound n) (cfg.running && is_parked inst.state) _ _
          (instance_started-IsSound n now inst v) v)

  folded-IsSound :
      (ev : Event) (cfg : InstanceConfig) (m : Dict Instance) (k : String)
      → IsChecked cfg
      → Every (IsSound n) m
      → IsSound n (folded now ev cfg (lookup k m))
  unfolding folded
  folded-IsSound ev cfg m k c h =
      with_config (current_sound (lookup k m) (λ inst e. Every-lookup (IsSound n) k m h e))
    where
      current_sound :
          (held : Option Instance)
          → ((inst : Instance) → held ≡ some inst → IsSound n inst)
          → IsSound n (current now ev cfg held)
      current_sound none f = new_instance-IsSound ev cfg c
      current_sound (some inst) f = refreshed-IsSound cfg inst (f inst refl)

      with_config :
          IsSound n (current now ev cfg (lookup k m)) → IsSound n (folded now ev cfg (lookup k m))
      with_config v = record { action = v.action; delay = v.delay; config = c }

  abbrev SoundResult : Dict Instance × Parsed Instance → Type 0
  SoundResult (m, ok inst) = Every (IsSound n) m × IsSound n inst
  SoundResult (m, err e) = Every (IsSound n) m

  save_instance-SoundResult :
      (dec : Decoders) (ev : Event) (m : Dict Instance)
      → Every (IsSound n) m
      → SoundResult (save_instance dec now ev m)
  unfolding save_instance
  save_instance-SoundResult dec ev m h = if_both SoundResult (not ev.enriched_instance) _ _ h (
      by_result (parse_instance_config dec ev.config ev.running)
        (λ cfg e. parse_instance_config-IsChecked dec ev.config ev.running e))
    where
      by_result :
          (r : Parsed InstanceConfig)
          → ((cfg : InstanceConfig) → r ≡ ok cfg → IsChecked cfg)
          → SoundResult (elim r [
            | err e ↦ (delete (inst_key ev) m, err e)
            | ok cfg ↦
                let inst = folded now ev cfg (lookup (inst_key ev) m) in
                (insert (inst_key ev) inst m, ok inst)
          ])
      by_result (err e) f = Every-delete (IsSound n) (inst_key ev) m h
      by_result (ok cfg) f =
          let v = folded-IsSound ev cfg m (inst_key ev) (f cfg refl) h in
          (Every-insert (IsSound n) (inst_key ev) _ m v h, v)

module _ (now : ℕ) (ev : Event) where
  -- A handler of a saved instance.
  abbrev KeepsSaved : (Instance → World → Outcome World) → Type 0
  KeepsSaved next =
      (inst : Instance) (w : World)
      → IsSound w.next_context inst
      → AllSound w
      → Ensures AllSound (next inst w)

  on_started-KeepsSaved : KeepsSaved (on_started now ev)
  unfolding on_started
  on_started-KeepsSaved inst w v h = if_both AllSound (in_flight inst.state) _ _ h (
      Every-insert (IsSound w.next_context) (inst_key ev) _ w.instances
        (instance_started-IsSound w.next_context now inst v) h)

  on_updated-KeepsSaved : KeepsSaved (on_updated ev)
  unfolding on_updated
  on_updated-KeepsSaved inst w v h =
      if_both (Ensures AllSound) (not inst.config.running) _ _
        (Every-insert (IsSound w.next_context) (inst_key ev) _ w.instances
          (report_status-IsSound w.next_context ev.project "stopped" inst v) h)
        h

  on_stopped-KeepsSaved : KeepsSaved (on_stopped now ev)
  unfolding on_stopped
  on_stopped-KeepsSaved inst w v h =
      let n = w.next_context in
      let told = (report_status ev.project "stopped" inst).0 in
      let t = report_status-IsSound n ev.project "stopped" inst v in
      let h' = Every-insert (IsSound n) (inst_key ev) told w.instances t h in
      let m = insert (inst_key ev) told w.instances in
      if_both (Ensures AllSound) (not (tracked told.config.restart_policy)) _ _
        (Every-delete (IsSound n) (inst_key ev) m h')
        (if_both (Ensures AllSound) (is_restart told.action) _ _
          (Every-insert (IsSound n) (inst_key ev) _ m
            (record {
              action = rest-IsTracked idle refl t.action;
              delay = t.delay;
              config = t.config;
            })
            h')
          (Every-insert (IsSound n) (inst_key ev) _ m
            (record {
              action = rest-IsTracked idle refl t.action;
              delay = widen-InRange t.delay;
              config = t.config;
            })
            h'))

  forget-AllSound : (w : World) → AllSound w → AllSound (forget ev w)
  unfolding forget
  forget-AllSound w h = Every-delete (IsSound w.next_context) (inst_key ev) w.instances h

  send_result-AllSound :
      (res : InstanceResult) (w : World) → AllSound w → Ensures AllSound (send_result res w)
  unfolding send_result
  send_result-AllSound res w h =
      if_both (Ensures AllSound) (ltb (length w.results) results_cap) _ _ h tt

  saved-AllSound :
      (dec : Decoders) (next : Instance → World → Outcome World) (w : World)
      → KeepsSaved next
      → AllSound w
      → Ensures AllSound (saved dec now ev next w)
  unfolding saved
  saved-AllSound dec next w k h =
      by_result (save_instance dec now ev w.instances)
        (save_instance-SoundResult w.next_context now dec ev w.instances h)
    where
      by_result :
          (r : Dict Instance × Parsed Instance)
          → SoundResult w.next_context now r
          → Ensures AllSound (elim r.1 [
            | err e ↦ send_result (discovered_result ev e) (record w { instances = r.0 })
            | ok inst ↦ next inst (record w { instances = r.0 })
          ])
      by_result (m, ok inst) s = k inst (record w { instances = m }) s.1 s.0
      by_result (m, err e) s =
          send_result-AllSound (discovered_result ev e) (record w { instances = m }) s

  dispatch-AllSound :
      (dec : Decoders) (action : Lifecycle) (w : World)
      → AllSound w
      → Ensures AllSound (dispatch dec now action ev w)
  unfolding dispatch
  dispatch-AllSound dec started w h =
      saved-AllSound dec (on_started now ev) w on_started-KeepsSaved h
  dispatch-AllSound dec Lifecycle.restarted w h =
      saved-AllSound dec (on_started now ev) w on_started-KeepsSaved h
  dispatch-AllSound dec resumed w h =
      saved-AllSound dec (on_started now ev) w on_started-KeepsSaved h
  dispatch-AllSound dec stopped w h =
      saved-AllSound dec (on_stopped now ev) w on_stopped-KeepsSaved h
  dispatch-AllSound dec shutdown w h =
      saved-AllSound dec (on_stopped now ev) w on_stopped-KeepsSaved h
  dispatch-AllSound dec updated w h = saved-AllSound dec (on_updated ev) w on_updated-KeepsSaved h
  dispatch-AllSound dec deleted w h = forget-AllSound w h
  dispatch-AllSound dec _ w h = h

  handle_instance_event-AllSound :
      (dec : Decoders) (w : World)
      → AllSound w
      → Ensures AllSound (handle_instance_event dec now ev w)
  unfolding handle_instance_event
  handle_instance_event-AllSound dec w h =
      if_both (Ensures AllSound) (str_eq ev.name "") _ _ h (dispatch-AllSound dec ev.action w h)

  -- Folding any event, wanted or not, served or not, leaves every instance of a sound fleet sound
  -- where the fold ends.
  pub fold-AllSound :
      (dec : Decoders) (serve : Event → Bool) (w : World)
      → AllSound w
      → Ensures AllSound (fold dec serve now ev w)
  unfolding fold
  fold-AllSound dec serve w h =
      Ensures-bind AllSound AllSound _ _
        (if_both (Ensures AllSound) (not ev.failed && is_wanted ev.action) _ _
          (if_both (Ensures AllSound) (is_deleted ev.action || serve ev) _ _
            (handle_instance_event-AllSound dec w h) (forget-AllSound w h))
          h)
        (λ w' h'. h')
