-- ===== src/Checker/Tests.antt =====
-- Runs of the health checker (cmd/ic-healthd/checker) on concrete input.
use incus_compose.Prelude.{
  List, inl, inr, pos, ℕ, zero, suc, replicate, ◌≡◌, ◌*◌, ◌^◌, ◌+◌, min, Option, refl, true, false,
  some, none, String, [], ◌∷◌, arith,
}
use incus_compose.Prelude.Dict.{Dict, lookup, insert}
use incus_compose.Checker.Types.{
  no_healthcheck, idle, restart, other, cancel, Outcome, checking, check, InstanceConfig, Instance,
  InstanceResult, checked, done, blocked, panicked, max_restart_delay,
}
use incus_compose.Checker.Step.{tracked, base_restart_delay, report_status, check_failed}
use incus_compose.Checker.Config.{
  Decoders, ok, value_of, parse_signed, parse_positive, parse_retries, parse_test,
  parse_instance_config, IsChecked, parse_instance_config-IsChecked,
}
use incus_compose.Checker.World.{updated, deleted, Event, World}
use incus_compose.Checker.Events.{drain}
use incus_compose.Checker.Actions.{
  Turn, Round, visit, begin, begin_check, unchanged, visit_all, run_instance_actions,
}
use incus_compose.Checker.Results.{
  handle_instance_result, restart_ended, dispatch_result, if_current, release_context, check_ended,
  check_passed, next_check, rand_below, expire_start, adopt,
}
use incus_compose.Checker.Fold.{Ensures, AllSound}
use incus_compose.Checker.Rounds.{Returns}
use incus_compose.Checker.Replies.{handle_instance_result-AllSound}
use incus_compose.Checker.Loop.{here, reachable-Returns}
use incus_compose.Checker.Wake.{IsEarliest, visit_all-IsEarliest}
use incus_compose.Checker.Verdicts.{
  fail_all, refail, exhausted, unhealthy_after_retries, refail_backoff,
}
use incus_compose.Checker.Inbox.{Holds, drain-blocked}
use incus_compose.Checker.Jitter.{IsCurrent, short_interval_panics}

-- Decoders that read what the tests write.
abbrev decoders : Decoders
decoders = record {
  json_texts = λ v. some ("NONE" ∷ []);
  duration = λ v. some (pos 3);
  uint32 = λ v. some 2;
  is_true = λ v. true;
}

abbrev watched : Dict String
watched =
    ("user.healthcheck.enabled", "true")
    ∷ ("user.healthcheck.restart", "always")
    ∷ ("user.healthcheck.interval", "3ns")
    ∷ []

abbrev config : InstanceConfig
config = record {
  test = "NONE" ∷ [];
  start_period = pos 0;
  start_interval = 5_000_000_000;
  interval = 3;
  timeout = 30_000_000_000;
  retries = 3;
  cwd = "";
  uid = 2;
  gid = 2;
  restart_policy = "always";
  running = true;
}

parse_watched : parse_instance_config decoders watched true ≡ ok config
unfolding parse_instance_config parse_test parse_signed parse_positive parse_retries value_of
    tracked lookup
parse_watched = refl

parse_instance_config-IsChecked_example : IsChecked config
parse_instance_config-IsChecked_example =
    parse_instance_config-IsChecked decoders watched true parse_watched

-- An instance whose check is in flight.
abbrev busy : Instance
busy = record {
  name = "db";
  project = "p";
  config = config;
  state = checking;
  due = 0;
  action = check;
  action_deadline = some 90;
  action_context = some 0;
  action_cancel = some 0;
  in_restart = false;
  restart_done = 0;
  failures = 0;
  status = "healthy";
  restart_delay = 5_000_000_000;
}

abbrev fleet : World
fleet = record {
  instances = ("p/db", busy) ∷ [];
  results = [];
  effects = [];
  forwarded = [];
  next_context = 1;
}

fleet-AllSound : AllSound fleet
fleet-AllSound = (
  record {
    action = record { flight = λ e. refl; cancellable = refl; timed = refl; issued = omega arith };
    delay = omega arith;
    config = omega arith;
  },
  tt,
)

abbrev turn : Turn
turn = record { now = 100; free = λ k. true; rand = λ k. 7 }

-- A product of 3 * 2^62 nanoseconds, which is negative as an int64.
abbrev wide : InstanceConfig
wide = record config { interval = 2 ^ 62 }

reachable-Returns_example : Returns (λ r. AllSound r.0) (run_instance_actions turn fleet)
reachable-Returns_example =
    reachable-Returns decoders (λ ev. true) fleet fleet fleet-AllSound here turn

abbrev passed : InstanceResult
passed = record {
  kind = checked;
  name = "db";
  project = "p";
  ctx = some 0;
  config = none;
  status = "";
  err = none;
}

-- The same fleet with an interval that leaves room for the jitter.
abbrev steady : Instance
steady = record busy { config = record config { interval = 30_000_000_000 } }

abbrev steady_fleet : World
steady_fleet = record fleet { instances = ("p/db", steady) ∷ [] }

steady_fleet-AllSound : AllSound steady_fleet
steady_fleet-AllSound = (
  record {
    action = record { flight = λ e. refl; cancellable = refl; timed = refl; issued = omega arith };
    delay = omega arith;
    config = omega arith;
  },
  tt,
)

-- A passed check of it is taken in.
passed-done :
    handle_instance_result 9 5 passed steady_fleet
    ≡ done (record steady_fleet {
      instances =
          (
            "p/db",
            record steady {
              state = idle;
              due = 30_000_000_014;
              action_deadline = none;
              action_context = none;
              action_cancel = none;
              restart_delay = 90_000_000_000;
            },
          )
          ∷ [];
      effects = cancel 0 ∷ [];
    })
unfolding handle_instance_result dispatch_result if_current release_context check_ended check_passed
    next_check rand_below expire_start adopt base_restart_delay report_status lookup insert
passed-done = refl

handle_instance_result-AllSound_example :
    Ensures AllSound (handle_instance_result 9 5 passed steady_fleet)
handle_instance_result-AllSound_example =
    handle_instance_result-AllSound 9 5 passed steady_fleet steady_fleet-AllSound
      (record { no_config = refl })

passed-IsCurrent : IsCurrent passed fleet busy
unfolding lookup
passed-IsCurrent = record { found = refl; in_hand = refl; matching = refl; no_config = refl }

short_interval_panics_example : handle_instance_result 9 5 passed fleet ≡ panicked
short_interval_panics_example =
    short_interval_panics 9 5 passed fleet busy fleet-AllSound passed-IsCurrent refl refl refl
      (omega arith)

-- An instance that is due, one that falls due at 200, and one in flight until 90.
abbrev resting : Instance
resting = record busy { state = idle; action_deadline = none; action_cancel = none; due = 200 }

abbrev three : Dict Instance
three = ("p/web", record resting { due = 60 }) ∷ ("p/app", resting) ∷ ("p/db", busy) ∷ []

abbrev early_turn : Turn
early_turn = record turn { now = 80 }

abbrev wakes_at : Outcome Round → Outcome (Option ℕ)
wakes_at (done r) = done r.earliest
wakes_at blocked = blocked
wakes_at panicked = panicked

-- The wake-up is for the one of the three that waits, and not for the deadline of the one in flight.
three_earliest : wakes_at (visit_all early_turn 1 three) ≡ done (some 200)
unfolding visit_all visit begin begin_check unchanged
three_earliest = refl

visit_all-IsEarliest_example : Ensures (IsEarliest 80 three) (visit_all early_turn 1 three)
visit_all-IsEarliest_example = visit_all-IsEarliest early_turn 1 three

unhealthy_after_retries_example :
    let (told, counted) = fail_all (10 ∷ 20 ∷ []) busy in
    (told ≡ "healthy" ∷ "healthy" ∷ [])
    × (check_failed 30 counted ≡ (exhausted 30 busy, "unhealthy"))
unhealthy_after_retries_example =
    unhealthy_after_retries (10 ∷ 20 ∷ []) 30 busy refl refl (omega arith)

refail_backoff_example :
    let delay = min (5_000_000_000 * 2 ^ 2) max_restart_delay in
    let failed = restart_ended 3 (some other) (refail (1 ∷ 2 ∷ []) busy) in
    (failed.state ≡ idle)
    × (failed.action ≡ restart)
    × (failed.due ≡ 3 + delay)
    × (failed.restart_delay ≡ min (delay * 2) max_restart_delay)
refail_backoff_example = refail_backoff (1 ∷ 2 ∷ []) 3 busy (omega arith)

-- An update of an instance that is not enabled and has no test.
abbrev plain_event : Event
plain_event = record {
  action = updated;
  project = "p";
  name = "web";
  failed = false;
  enriched_instance = true;
  config = [];
  running = true;
}

unchecked_copies : (n : ℕ) → Holds decoders (λ ev. true) n (replicate n plain_event)
unfolding parse_instance_config value_of tracked lookup
unchecked_copies zero = tt
unchecked_copies (suc n) = inl (
  record {
    error = no_healthcheck;
    acts = refl;
    named = refl;
    reads = refl;
    served = refl;
    enriched = refl;
    refused = refl;
  },
  unchecked_copies n,
)

-- They come after the delete of an instance.
abbrev many_events : List Event
many_events = record plain_event { action = deleted; name = "old" } ∷ replicate 33 plain_event

drain-blocked_example : drain decoders (λ ev. true) 9 many_events fleet ≡ blocked
drain-blocked_example =
    drain-blocked decoders (λ ev. true) 9 33 many_events fleet (inr (unchecked_copies 33))
      (omega arith) (omega arith)
