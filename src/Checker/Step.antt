-- ===== src/Checker/Step.antt =====
-- What one instance of the health checker goes through, apart from the handlers that call it:
-- cmd/ic-healthd/checker/instance.go, `instanceStarted`, `baseRestartDelay`, `reportStatus` and
-- `checkFailed`.
use incus_compose.Prelude.{
  ℤ, pos, negsuc, ℕ, ◌+◌, ◌*◌, ◌%◌, ◌^◌, min, max, Bool, true, false, ◌||◌, String, List, [], ◌∷◌,
  ltb, leb, ◌==◌, if◌then◌else◌, str_eq,
}
use incus_compose.Checker.Types.{
  InstanceState, idle, checking, InstanceAction, check, restart, InstanceConfig, Instance, Effect,
  write_status, default_restart_delay, max_restart_delay,
}

-- `slices.Contains(shared.RestartPolicies, p)`
unfoldable pub tracked : String → Bool
tracked p = str_eq p "always" || str_eq p "on-failure" || str_eq p "unless-stopped"

abbrev pub positive : ℤ → Bool
positive (pos n) = ltb 0 n
positive (negsuc n) = false

-- `now.Add(d)`, only called on a positive duration.
abbrev pub add_period : ℕ → ℤ → ℕ
add_period now (pos n) = now + n
add_period now (negsuc n) = now

abbrev pub is_idle : InstanceState → Bool
is_idle idle = true
is_idle _ = false

abbrev pub is_checking : InstanceState → Bool
is_checking checking = true
is_checking _ = false

abbrev pub is_check : InstanceAction → Bool
is_check check = true
is_check _ = false

abbrev pub is_restart : InstanceAction → Bool
is_restart restart = true
is_restart _ = false

unfoldable pub instance_started : ℕ → Instance → Instance
instance_started now inst =
    let armed = positive inst.config.start_period in
    record inst {
      config = record (inst.config) { running = true };
      state = idle;
      action = check;
      failures = 0;
      due = now;
      in_restart = armed;
      restart_done = if armed then add_period now inst.config.start_period else inst.restart_done;
    }

-- The product is an int64: a wrapped one of 2^63 and more reads as negative, and the outer `max`
-- takes the default.
unfoldable pub base_restart_delay : InstanceConfig → ℕ
base_restart_delay cfg =
    if cfg.interval == 0 || cfg.retries == 0
    then default_restart_delay
    else let product = (cfg.interval * cfg.retries) % 2 ^ 64 in
      if leb (2 ^ 63) product
      then default_restart_delay
      else max (min product max_restart_delay) default_restart_delay

-- The doubling that every scheduled restart makes.
abbrev pub widen : ℕ → ℕ
widen delay = min (delay * 2) max_restart_delay

-- A write is started only on a transition; the status is recorded before it lands.
unfoldable pub report_status : String → String → Instance → Instance × List Effect
report_status project status inst =
    if str_eq status inst.status
    then (inst, [])
    else (record inst { status = status }, write_status project inst.name status ∷ [])

unfoldable pub check_failed : ℕ → Instance → Instance × String
check_failed now inst =
    if inst.in_restart
    then (inst, "starting")
    else let failed = record inst { failures = inst.failures + 1 } in
      if ltb failed.failures inst.config.retries
      then (failed, inst.status)
      else if tracked inst.config.restart_policy
      then (
        record failed {
          failures = 0;
          action = restart;
          due = now + inst.restart_delay;
          restart_delay = widen inst.restart_delay;
        },
        "unhealthy",
      )
      else (failed, "unhealthy")
