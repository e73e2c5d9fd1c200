-- ===== src/Checker/Sound.antt =====
-- What every instance that the health checker holds satisfies, and that the steps of one instance
-- keep it.
use incus_compose.Prelude.{
  ℕ, ◌+◌, ◌≤◌, ◌<◌, ◌≡◌, refl, Bool, true, false, Option, none, some, String, List, arith, ltb,
  str_eq, if_both, max, min, ◌*◌,
}
use incus_compose.Checker.Types.{
  InstanceConfig, Instance, InstanceState, idle, Effect, default_restart_delay, max_restart_delay,
}
use incus_compose.Checker.Step.{
  tracked, instance_started, base_restart_delay, report_status, check_failed, widen,
}
use incus_compose.Checker.Config.{IsChecked}
use incus_compose.Checker.Events.{in_flight}

abbrev pub is_some {ℓ} : {A : Type ℓ} → Option A → Bool
is_some none = false
is_some (some a) = true

abbrev pub Below : ℕ → Option ℕ → Type 0
Below n none = Unit
Below n (some c) = c < n

-- An action in flight has a context; the context, its cancel function and the deadline are set
-- together; contexts come from a counter that has passed them.
pub record IsTracked (n : ℕ) (state : InstanceState) (deadline context cancel : Option ℕ)
    : Type 0 where
  pub flight : in_flight state ≡ true → is_some context ≡ true
  pub cancellable : cancel ≡ context
  pub timed : is_some deadline ≡ is_some context
  pub issued : Below n context

-- The restart delay keeps its range.
pub record InRange (delay : ℕ) : Type 0 where
  pub low : default_restart_delay ≤ delay
  pub high : delay ≤ max_restart_delay

pub record IsSound (n : ℕ) (inst : Instance) : Type 0 where
  pub action : IsTracked n inst.state inst.action_deadline inst.action_context inst.action_cancel
  pub delay : InRange inst.restart_delay
  pub config : IsChecked inst.config

pub base_restart_delay-InRange : (cfg : InstanceConfig) → InRange (base_restart_delay cfg)
unfolding base_restart_delay
base_restart_delay-InRange cfg = ground arith

-- The product of the interval and the retries, unbounded, clamped to the limits.
abbrev pub clamped : InstanceConfig → ℕ
clamped cfg = max (min (cfg.interval * cfg.retries) max_restart_delay) default_restart_delay

pub widen-InRange : {delay : ℕ} → InRange delay → InRange (widen delay)
widen-InRange h = omega arith

-- An idle or a parked instance has nothing to answer for beyond its context.
pub rest-IsTracked :
    {n : ℕ} {state : InstanceState} {deadline context cancel : Option ℕ} (next : InstanceState)
    → in_flight next ≡ false
    → IsTracked n state deadline context cancel
    → IsTracked n next deadline context cancel
rest-IsTracked next e v = record {
  flight = λ f. cc (e, f);
  cancellable = v.cancellable;
  timed = v.timed;
  issued = v.issued;
}

pub settled-IsTracked :
    (n : ℕ) (next : InstanceState) → in_flight next ≡ false → IsTracked n next none none none
settled-IsTracked n next e = record {
  flight = λ f. cc (e, f);
  cancellable = refl;
  timed = refl;
  issued = tt;
}

module _ (n : ℕ) where
  pub instance_started-IsSound :
      (now : ℕ) (inst : Instance) → IsSound n inst → IsSound n (instance_started now inst)
  unfolding instance_started
  instance_started-IsSound now inst v = record {
    action = rest-IsTracked idle refl v.action;
    delay = v.delay;
    config = record {
      start_interval_pos = v.config.start_interval_pos;
      interval_pos = v.config.interval_pos;
      timeout_pos = v.config.timeout_pos;
      retries_pos = v.config.retries_pos;
    };
  }

  pub check_failed-IsSound :
      (now : ℕ) (inst : Instance) → IsSound n inst → IsSound n (check_failed now inst).0
  unfolding check_failed
  check_failed-IsSound now inst v =
      if_both (λ (r : Instance × String). IsSound n r.0) inst.in_restart _ _ v
        (if_both (λ (r : Instance × String). IsSound n r.0)
          (ltb (inst.failures + 1) inst.config.retries) _ _
          (record { action = v.action; delay = v.delay; config = v.config })
          (if_both (λ (r : Instance × String). IsSound n r.0) (tracked inst.config.restart_policy) _
            _ (record { action = v.action; delay = widen-InRange v.delay; config = v.config })
            (record { action = v.action; delay = v.delay; config = v.config })))

  pub report_status-IsSound :
      (project want : String) (inst : Instance)
      → IsSound n inst
      → IsSound n (report_status project want inst).0
  unfolding report_status
  report_status-IsSound project want inst v =
      if_both (λ (r : Instance × List Effect). IsSound n r.0) (str_eq want inst.status) _ _ v
        (record { action = v.action; delay = v.delay; config = v.config })

  -- What a later counter tells apart, an earlier one did.
  pub IsSound-mono : (m : ℕ) (inst : Instance) → n ≤ m → IsSound n inst → IsSound m inst
  IsSound-mono m inst le v = record {
    action = record {
      flight = v.action.flight;
      cancellable = v.action.cancellable;
      timed = v.action.timed;
      issued = later inst.action_context v.action.issued;
    };
    delay = v.delay;
    config = v.config;
  }
    where
      later : (c : Option ℕ) → Below n c → Below m c
      later none h = tt
      later (some c) h = omega arith
