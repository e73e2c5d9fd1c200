-- ===== src/Checker/Events.antt =====
-- `saveInstance` and `handleInstanceEvent` of cmd/ic-healthd/checker/instance.go, and the fold of
-- Run in checker.go. A handler reads the clock once. Logging and metrics are left out.
use incus_compose.Prelude.{
  ℕ, ◌+◌, Bool, true, false, not, ◌&&◌, ◌||◌, Option, none, some, String, List, [], ◌∷◌, ◌++◌,
  if◌then◌else◌, str_eq,
}
use incus_compose.Prelude.Dict.{Dict, lookup, insert, delete}
use incus_compose.Checker.Types.{
  InstanceState, idle, checking, restarting, parked, check, restart, unset, InstanceConfig,
  Instance, other, Outcome, done, ◌>>=◌,
}
use incus_compose.Checker.Step.{
  tracked, positive, add_period, is_check, is_restart, instance_started, base_restart_delay, widen,
  report_status,
}
use incus_compose.Checker.Config.{Decoders, Parsed, ok, err, parse_instance_config}
use incus_compose.Checker.World.{
  Lifecycle, started, resumed, stopped, shutdown, updated, deleted, Event, World, inst_key,
  send_result, discovered_result, cancels, keep,
}

abbrev pub is_parked : InstanceState → Bool
is_parked parked = true
is_parked _ = false

abbrev pub in_flight : InstanceState → Bool
in_flight checking = true
in_flight restarting = true
in_flight _ = false

-- An instance seen for the first time: idle and due for a check at once, or parked.
unfoldable pub new_instance : ℕ → Event → InstanceConfig → Instance
new_instance now ev cfg =
    let armed = cfg.running && positive cfg.start_period in
    record {
      name = ev.name;
      project = ev.project;
      config = cfg;
      state = if cfg.running then idle else parked;
      due = now;
      action = if cfg.running then check else unset;
      action_deadline = none;
      action_context = none;
      action_cancel = none;
      in_restart = armed;
      restart_done = if armed then add_period now cfg.start_period else 0;
      failures = 0;
      status = "";
      restart_delay = base_restart_delay cfg;
    }

-- A start found here runs under the configuration held so far; the new one is set behind it.
unfoldable pub refreshed : ℕ → InstanceConfig → Instance → Instance
refreshed now cfg inst =
    if not cfg.running && is_check inst.action
    then record inst { state = parked; action = unset }
    else if cfg.running && is_parked inst.state
    then instance_started now inst
    else inst

abbrev pub current : ℕ → Event → InstanceConfig → Option Instance → Instance
current now ev cfg none = new_instance now ev cfg
current now ev cfg (some inst) = refreshed now cfg inst

abbrev pub status_or_unknown : Option String → String
status_or_unknown none = "unknown"
status_or_unknown (some s) = s

unfoldable pub folded : ℕ → Event → InstanceConfig → Option Instance → Instance
folded now ev cfg held = record (current now ev cfg held) {
  status = status_or_unknown (lookup "user.healthcheck.status" ev.config);
  config = cfg;
}

unfoldable pub save_instance :
    Decoders → ℕ → Event → Dict Instance → Dict Instance × Parsed Instance
save_instance dec now ev instances =
    let k = inst_key ev in
    if not ev.enriched_instance
    then (instances, err other)
    else elim (parse_instance_config dec ev.config ev.running) [
      | err e ↦ (delete k instances, err e)
      | ok cfg ↦
          let inst = folded now ev cfg (lookup k instances) in (insert k inst instances, ok inst)
    ]

unfoldable pub on_started : ℕ → Event → Instance → World → Outcome World
on_started now ev inst w =
    done (if in_flight inst.state then w else keep (inst_key ev) (instance_started now inst) [] w)

unfoldable pub on_stopped : ℕ → Event → Instance → World → Outcome World
on_stopped now ev inst w =
    let (told, fx) = report_status ev.project "stopped" inst in
    let w' = keep (inst_key ev) told fx w in
    if not (tracked told.config.restart_policy)
    then done (record w' {
      instances = delete (inst_key ev) w'.instances;
      effects = w'.effects ++ cancels told.action_cancel;
    })
    else if is_restart told.action
    then done (keep (inst_key ev) (record told { state = idle }) [] w')
    else done (
        keep (inst_key ev)
          (record told {
            state = idle;
            action = restart;
            due = now + told.restart_delay;
            restart_delay = widen told.restart_delay;
          })
          [] w')

unfoldable pub on_updated : Event → Instance → World → Outcome World
on_updated ev inst w =
    if not inst.config.running
    then (let (told, fx) = report_status ev.project "stopped" inst in
        done (keep (inst_key ev) told fx w))
    else done w

abbrev pub canceller : Option Instance → Option ℕ
canceller none = none
canceller (some inst) = inst.action_cancel

-- A delete, and an instance of a project that is no longer watched.
unfoldable pub forget : Event → World → World
forget ev w = record w {
  instances = delete (inst_key ev) w.instances;
  effects = w.effects ++ cancels (canceller (lookup (inst_key ev) w.instances));
}

-- `saveInstance`, and what follows on its success; a failure goes to the results channel.
unfoldable pub saved :
    Decoders → ℕ → Event → (Instance → World → Outcome World) → World → Outcome World
saved dec now ev next w =
    let (instances, found) = save_instance dec now ev w.instances in
    let w' = record w { instances = instances } in
    elim found [ err e ↦ send_result (discovered_result ev e) w' | ok inst ↦ next inst w' ]

unfoldable pub dispatch : Decoders → ℕ → Lifecycle → Event → World → Outcome World
dispatch dec now started ev w = saved dec now ev (on_started now ev) w
dispatch dec now Lifecycle.restarted ev w = saved dec now ev (on_started now ev) w
dispatch dec now resumed ev w = saved dec now ev (on_started now ev) w
dispatch dec now stopped ev w = saved dec now ev (on_stopped now ev) w
dispatch dec now shutdown ev w = saved dec now ev (on_stopped now ev) w
dispatch dec now updated ev w = saved dec now ev (on_updated ev) w
dispatch dec now deleted ev w = done (forget ev w)
dispatch dec now _ ev w = done w

unfoldable pub handle_instance_event : Decoders → ℕ → Event → World → Outcome World
handle_instance_event dec now ev w =
    if str_eq ev.name "" then done w else dispatch dec now ev.action ev w

abbrev pub is_wanted : Lifecycle → Bool
is_wanted Lifecycle.other = false
is_wanted _ = true

abbrev pub is_deleted : Lifecycle → Bool
is_deleted deleted = true
is_deleted _ = false

-- One event folded and handed on. `serve` is `cfg.Serveable`; nil is the test that always passes.
unfoldable pub fold : Decoders → (Event → Bool) → ℕ → Event → World → Outcome World
fold dec serve now ev w =
    let handled : Outcome World =
      if not ev.failed && is_wanted ev.action
      then (if is_deleted ev.action || serve ev
          then handle_instance_event dec now ev w
          else done (forget ev w))
      else done w in
    handled >>= λ w'. done (record w' { forwarded = w'.forwarded ++ ev ∷ [] })

-- Run's drain on a shutdown command: everything on the inbox, with nothing read off `results`.
unfoldable pub drain : Decoders → (Event → Bool) → ℕ → List Event → World → Outcome World
drain dec serve now [] w = done w
drain dec serve now (ev ∷ inbox) w = fold dec serve now ev w >>= drain dec serve now inbox
