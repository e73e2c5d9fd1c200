-- ===== src/Checker/Types.antt =====
-- The data of the health checker: cmd/ic-healthd/checker/instance.go and constants.go, and the
-- names of shared/health.go. Instants and durations are nanoseconds; the durations that
-- `parseInstanceConfig` demands to be positive are natural numbers, `startPeriod` is signed.
use incus_compose.Prelude.{ℕ, ◌*◌, Bool, Option, String, List, ℤ}

pub data InstanceState : Type 0 where
  idle checking restarting parked : InstanceState

-- `unset` is the empty string.
pub data InstanceAction : Type 0 where
  check restart unset : InstanceAction

pub record InstanceConfig : Type 0 where
  pub test : List String
  pub start_period : ℤ
  pub start_interval : ℕ
  pub interval : ℕ
  pub timeout : ℕ
  pub retries : ℕ
  pub cwd : String
  pub uid : ℕ
  pub gid : ℕ
  pub restart_policy : String
  pub running : Bool

-- A context is known by a number, fresh for each action. `action_cancel` holds the context that the
-- function cancels, and `none` is the nil function; `none` as a deadline is the zero time.
pub record Instance : Type 0 where
  pub name : String
  pub project : String
  pub config : InstanceConfig
  pub state : InstanceState
  pub due : ℕ
  pub action : InstanceAction
  pub action_deadline : Option ℕ
  pub action_context : Option ℕ
  pub action_cancel : Option ℕ
  pub in_restart : Bool
  pub restart_done : ℕ
  pub failures : ℕ
  pub status : String
  pub restart_delay : ℕ

-- The sentinels of errors.go, and any other error.
pub data CheckError : Type 0 where
  no_healthcheck not_enabled intentionally_stopped not_running other : CheckError

pub data ResultKind : Type 0 where
  discovered checked restarted status_written : ResultKind

pub record InstanceResult : Type 0 where
  pub kind : ResultKind
  pub name : String
  pub project : String
  pub ctx : Option ℕ
  pub config : Option InstanceConfig
  pub status : String
  pub err : Option CheckError

-- What a handler starts outside of the loop's own state: goroutines and pool tasks, and cancels.
pub data Effect : Type 0 where
  cancel : ℕ → Effect
  write_status : String → String → String → Effect
  run_check : ℕ → String → String → InstanceConfig → Effect
  run_restart : ℕ → String → String → Effect

-- A handler of the loop ends, waits on a full channel, or panics.
pub data Outcome {ℓ} (A : Type ℓ) : Type ℓ where
  done : A → Outcome A
  blocked : Outcome A
  panicked : Outcome A

infixl 5 ◌>>=◌
abbrev pub ◌>>=◌ {ℓ κ} : {A : Type ℓ} {B : Type κ} → Outcome A → (A → Outcome B) → Outcome B
done a >>= f = f a
blocked >>= f = blocked
panicked >>= f = panicked

abbrev pub second : ℕ
second = 1_000_000_000

abbrev pub minute : ℕ
minute = 60 * second

abbrev pub default_restart_delay : ℕ
default_restart_delay = 5 * second

abbrev pub max_restart_delay : ℕ
max_restart_delay = 5 * minute

abbrev pub restart_timeout : ℕ
restart_timeout = 20 * minute

abbrev pub pool_retry_delay : ℕ
pool_retry_delay = 250_000_000

abbrev pub default_interval : ℕ
default_interval = 30 * second

abbrev pub default_timeout : ℕ
default_timeout = 30 * second

abbrev pub default_retries : ℕ
default_retries = 3

abbrev pub default_restart_interval : ℕ
default_restart_interval = 5 * second

-- The channel that Run makes for results.
abbrev pub results_cap : ℕ
results_cap = 32
