-- ===== src/Checker/Results.antt =====
-- `handleInstanceResult` and `instanceConfig.equals` of cmd/ic-healthd/checker/instance.go. The
-- handler reads the clock once. Logging and metrics are left out.
use incus_compose.Prelude.{
  ℤ, pos, negsuc, ℕ, ◌+◌, ◌/◌, ◌%◌, Bool, true, false, not, ◌&&◌, Option, none, some, String, List,
  [], ◌∷◌, ◌++◌, ltb, ◌==◌, if◌then◌else◌, str_eq,
}
use incus_compose.Prelude.Dict.{lookup}
use incus_compose.Checker.Types.{
  idle, parked, restart, InstanceConfig, Instance, CheckError, intentionally_stopped, not_running,
  ResultKind, discovered, checked, restarted, status_written, InstanceResult, Effect, cancel,
  Outcome, done, panicked, ◌>>=◌,
}
use incus_compose.Checker.Step.{
  tracked, is_restart, instance_started, base_restart_delay, widen, report_status, check_failed,
}
use incus_compose.Checker.World.{World, key_of, keep}
use incus_compose.Checker.Actions.{settle}

abbrev pub texts_equal : List String → List String → Bool
texts_equal [] [] = true
texts_equal (x ∷ xs) (y ∷ ys) = str_eq x y && texts_equal xs ys
texts_equal _ _ = false

abbrev pub bools_equal : Bool → Bool → Bool
bools_equal true b = b
bools_equal false b = not b

abbrev pub signed_equal : ℤ → ℤ → Bool
signed_equal (pos a) (pos b) = a == b
signed_equal (negsuc a) (negsuc b) = a == b
signed_equal _ _ = false

abbrev pub contexts_equal : Option ℕ → Option ℕ → Bool
contexts_equal none none = true
contexts_equal (some a) (some b) = a == b
contexts_equal _ _ = false

unfoldable pub config_equals : InstanceConfig → InstanceConfig → Bool
config_equals a b =
    texts_equal a.test b.test
    && signed_equal a.start_period b.start_period
    && a.start_interval == b.start_interval
    && a.interval == b.interval
    && a.timeout == b.timeout
    && a.retries == b.retries
    && str_eq a.cwd b.cwd
    && a.uid == b.uid
    && a.gid == b.gid
    && str_eq a.restart_policy b.restart_policy
    && bools_equal a.running b.running

unfoldable pub adopt : Option InstanceConfig → Instance → Instance
adopt none inst = inst
adopt (some cfg) inst = if config_equals inst.config cfg then inst else record inst { config = cfg }

-- `rand.N(n)`: below `n`, and a panic for 0.
unfoldable pub rand_below : ℕ → ℕ → Outcome ℕ
rand_below r n = if n == 0 then panicked else done (r % n)

-- A restart scheduled after a stop or a failed restart.
unfoldable pub schedule_restart : ℕ → Instance → Instance
schedule_restart now inst = record inst {
  action = restart;
  due = now + inst.restart_delay;
  restart_delay = widen inst.restart_delay;
}

-- The start period has run out by now.
unfoldable pub expire_start : ℕ → Instance → Instance
expire_start now inst = record inst { in_restart = inst.in_restart && ltb now inst.restart_done }

unfoldable pub stopped_found : ℕ → String → Instance → Instance × List Effect
stopped_found now project inst =
    let (told, fx) =
      report_status project "stopped"
        (record inst { config = record (inst.config) { running = false } }) in
    (if tracked told.config.restart_policy then schedule_restart now told else told, fx)

unfoldable pub check_passed : Instance → Instance
check_passed inst = record inst {
  failures = 0;
  restart_delay = base_restart_delay inst.config;
  in_restart = false;
}

abbrev pub verdict : ℕ → Option CheckError → Instance → Instance × String
verdict now none inst = (check_passed inst, "healthy")
verdict now (some e) inst = check_failed now inst

-- When the next check falls due, unless a restart has been scheduled.
unfoldable pub next_check : ℕ → ℕ → Instance → Outcome Instance
next_check now r inst =
    if is_restart inst.action
    then done inst
    else let interval =
        if inst.in_restart then inst.config.start_interval else inst.config.interval in
      rand_below r (interval / 4) >>= λ jitter.
      done (record inst { due = now + (interval + jitter) })

abbrev pub is_not_running : Option CheckError → Bool
is_not_running (some not_running) = true
is_not_running _ = false

-- A check of the action that the instance still has in flight.
unfoldable pub check_ended : ℕ → ℕ → InstanceResult → Instance → Outcome (Instance × List Effect)
check_ended now r res inst =
    let ready = adopt res.config (expire_start now (settle (record inst { state = idle }))) in
    if is_not_running res.err
    then done (stopped_found now res.project ready)
    else let (judged, want) = verdict now res.err ready in
      let (told, fx) = report_status res.project want judged in
      next_check now r told >>= λ next. done (next, fx)

unfoldable pub restart_ended : ℕ → Option CheckError → Instance → Instance
restart_ended now none inst = instance_started now inst
restart_ended now (some intentionally_stopped) inst = record inst { state = parked }
restart_ended now (some e) inst = schedule_restart now (record inst { state = idle })

-- The cancel function releases the context; a nil one panics.
unfoldable pub release_context : Instance → Outcome (List Effect)
release_context inst = elim inst.action_cancel [ none ↦ panicked | some c ↦ done (cancel c ∷ []) ]

-- An instance unknown by now and a result of an abandoned action are both dropped.
unfoldable pub if_current : InstanceResult → (Instance → Outcome World) → World → Outcome World
if_current res next w = elim (lookup (key_of res.project res.name) w.instances) [
  | none ↦ done w
  | some inst ↦ if contexts_equal res.ctx inst.action_context then next inst else done w
]

unfoldable pub status_ended : InstanceResult → World → World
status_ended res w = elim (lookup (key_of res.project res.name) w.instances) [
  | none ↦ w
  | some inst ↦ elim res.err [
    | none ↦ w
    | some e ↦
        if str_eq inst.status res.status
        then keep (key_of res.project res.name) (record inst { status = "" }) [] w
        else w
  ]
]

unfoldable pub dispatch_result : ℕ → ℕ → ResultKind → InstanceResult → World → Outcome World
dispatch_result now r discovered res w = done w
dispatch_result now r checked res w =
    if_current res
      (λ inst. release_context inst >>= λ released. check_ended now r res inst >>= λ ended.
        done (keep (key_of res.project res.name) ended.0 (released ++ ended.1) w))
      w
dispatch_result now r restarted res w =
    if_current res
      (λ inst. release_context inst >>= λ released.
        done
          (keep (key_of res.project res.name) (restart_ended now res.err (settle inst)) released w))
      w
dispatch_result now r status_written res w = done (status_ended res w)

-- `r` is the number that the random source draws.
unfoldable pub handle_instance_result : ℕ → ℕ → InstanceResult → World → Outcome World
handle_instance_result now r res w = dispatch_result now r res.kind res w
