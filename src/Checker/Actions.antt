-- ===== src/Checker/Actions.antt =====
-- `runInstanceActions` of cmd/ic-healthd/checker/instance.go: the watchdog, and what falls due.
-- Logging and metrics are left out.
use incus_compose.Prelude.{
  ℕ, suc, ◌+◌, ◌%◌, Bool, true, false, not, ◌||◌, Option, none, some, String, List, [], ◌∷◌, ◌++◌,
  ltb, ◌==◌, if◌then◌else◌, length,
}
use incus_compose.Prelude.Dict.{Dict}
use incus_compose.Checker.Types.{
  idle, checking, restarting, InstanceAction, check, restart, unset, Instance, Effect, cancel,
  run_check, run_restart, Outcome, done, panicked, ◌>>=◌, restart_timeout, pool_retry_delay,
}
use incus_compose.Checker.Step.{
  is_idle, is_checking, is_restart, widen, report_status, check_failed,
}
use incus_compose.Checker.World.{World}

-- One call: the clock, which instances a worker is free for, and the random number drawn for each.
pub record Turn : Type 0 where
  pub now : ℕ
  pub free : String → Bool
  pub rand : String → ℕ

-- What became of one instance: `keep` was called with `wake`, and `submitted` used up a context.
pub record Visit : Type 0 where
  pub inst : Instance
  pub effects : List Effect
  pub wake : Option ℕ
  pub submitted : Bool

abbrev pub after : ℕ → Option ℕ → Bool
after now none = false
after now (some deadline) = ltb deadline now

abbrev pub settle : Instance → Instance
settle inst = record inst { action_deadline = none; action_context = none; action_cancel = none }

-- A probe that exceeds its timeout is a failed probe.
unfoldable pub reap_check : ℕ → Instance → Instance × List Effect
reap_check now inst =
    let (failed, want) = check_failed now inst in
    let (told, fx) = report_status inst.project want failed in
    (if is_restart told.action then told else record told { due = now + told.config.interval }, fx)

-- A restart that timed out is a restart that failed.
unfoldable pub reap_restart : ℕ → Instance → Instance × List Effect
reap_restart now inst =
    (record inst { due = now + inst.restart_delay; restart_delay = widen inst.restart_delay }, [])

unfoldable pub reap : ℕ → Instance → Outcome Visit
reap now inst = elim inst.action_cancel [
  | none ↦ panicked
  | some c ↦
      let (next, fx) =
        if is_checking inst.state
        then reap_check now (settle (record inst { state = idle }))
        else reap_restart now (settle (record inst { state = idle })) in
      done (record { inst = next; effects = cancel c ∷ fx; wake = none; submitted = false })
]

-- An action that no worker is free for waits; `rand.N(poolRetryDelay)` is below its argument.
unfoldable pub deferred : Turn → String → Instance → Visit
deferred t k inst =
    let due = t.now + (pool_retry_delay + t.rand k % pool_retry_delay) in
    record { inst = record inst { due = due }; effects = []; wake = some due; submitted = false }

unfoldable pub begin_restart : Turn → String → ℕ → Instance → Visit
begin_restart t k ctx inst =
    if t.free k
    then record {
      inst = record inst {
        state = restarting;
        action_deadline = some (t.now + restart_timeout);
        action_context = some ctx;
        action_cancel = some ctx;
      };
      effects = run_restart ctx inst.project inst.name ∷ [];
      wake = none;
      submitted = true;
    }
    else deferred t k inst

unfoldable pub unchanged : Instance → Visit
unchanged inst = record { inst = inst; effects = []; wake = none; submitted = false }

unfoldable pub begin_check : Turn → String → ℕ → Instance → Visit
begin_check t k ctx inst =
    if length inst.config.test == 0 || not inst.config.running
    then unchanged inst
    else if t.free k
    then record {
      inst = record inst {
        state = checking;
        action_deadline = some (t.now + inst.config.timeout);
        action_context = some ctx;
        action_cancel = some ctx;
      };
      effects = run_check ctx inst.project inst.name inst.config ∷ [];
      wake = none;
      submitted = true;
    }
    else deferred t k inst

unfoldable pub begin : Turn → String → ℕ → InstanceAction → Instance → Visit
begin t k ctx restart inst = begin_restart t k ctx inst
begin t k ctx check inst = begin_check t k ctx inst
begin t k ctx unset inst = unchanged inst

unfoldable pub visit : Turn → String → ℕ → Instance → Outcome Visit
visit t k ctx inst =
    if not (is_idle inst.state)
    then (if after t.now inst.action_deadline then reap t.now inst else done (unchanged inst))
    else if ltb t.now inst.due
    then done (record { inst = inst; effects = []; wake = some inst.due; submitted = false })
    else done (begin t k ctx inst.action inst)

-- The earlier of two wake-ups, where there is one.
abbrev pub sooner : Option ℕ → Option ℕ → Option ℕ
sooner none b = b
sooner (some a) none = some a
sooner (some a) (some b) = if ltb b a then some b else some a

pub record Round : Type 0 where
  pub instances : Dict Instance
  pub effects : List Effect
  pub earliest : Option ℕ
  pub next_context : ℕ

abbrev pub next_of : Bool → ℕ → ℕ
next_of submitted ctx = if submitted then suc ctx else ctx

-- The range over the map; `none` as the earliest is the zero time.
unfoldable pub visit_all : Turn → ℕ → Dict Instance → Outcome Round
visit_all t ctx [] =
    done (record { instances = []; effects = []; earliest = none; next_context = ctx })
visit_all t ctx ((k, inst) ∷ rest) = visit t k ctx inst >>= λ v.
    visit_all t (next_of v.submitted ctx) rest >>= λ r. done (record {
      instances = (k, v.inst) ∷ r.instances;
      effects = v.effects ++ r.effects;
      earliest = sooner v.wake r.earliest;
      next_context = r.next_context;
    })

-- The wake-up that Run arms its timer for; `none` arms it for an hour.
unfoldable pub run_instance_actions : Turn → World → Outcome (World × Option ℕ)
run_instance_actions t w = visit_all t w.next_context w.instances >>= λ r. done (
  record w {
    instances = r.instances;
    effects = w.effects ++ r.effects;
    next_context = r.next_context;
  },
  r.earliest,
)
