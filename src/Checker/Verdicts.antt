-- ===== src/Checker/Verdicts.antt =====
-- Consecutive failures, of checks and of restarts (cmd/ic-healthd/checker/instance.go).
use incus_compose.Prelude.{
  ℕ, zero, suc, ◌+◌, ◌-◌, ◌*◌, ◌^◌, ◌≤◌, ◌<◌, ◌≡◌, refl, ap, ◌∙◌, min, false, String, List, [], ◌∷◌,
  map, some, arith, length, lt→ltb, if◌then◌else◌,
}
use native.Mathlib.Decide.{dec_le}
use native.Mathlib.Nat.{pow-suc, mul_comm}
use incus_compose.Checker.Types.{Instance, idle, other, restart, max_restart_delay}
use incus_compose.Checker.Step.{tracked, check_failed, widen}
use incus_compose.Checker.Results.{restart_ended, schedule_restart}

-- The statuses that a run of failed checks reports, one check at each instant, and what it leaves.
unfoldable pub fail_all : List ℕ → Instance → List String × Instance
fail_all [] inst = ([], inst)
fail_all (now ∷ later) inst =
    let failed = check_failed now inst in
    let rest = fail_all later failed.0 in (failed.1 ∷ rest.0, rest.1)

-- Failed restarts, one at each instant.
unfoldable pub refail : List ℕ → Instance → Instance
refail [] inst = inst
refail (now ∷ later) inst = refail later (restart_ended now (some other) inst)

check_failed_below :
    (now : ℕ) (inst : Instance)
    → inst.in_restart ≡ false
    → inst.failures + 1 < inst.config.retries
    → check_failed now inst ≡ (record inst { failures = inst.failures + 1 }, inst.status)
unfolding check_failed
check_failed_below now inst started h = rw (started, lt→ltb _ _ h)

fail_all_below :
    (nows : List ℕ) (inst : Instance)
    → inst.in_restart ≡ false
    → inst.failures + length nows < inst.config.retries
    → fail_all nows inst
      ≡ (map (λ _. inst.status) nows, record inst { failures = inst.failures + length nows })
unfolding fail_all
fail_all_below [] inst started h = ap (λ k. ([], record inst { failures = k })) (omega arith)
fail_all_below (now ∷ nows) inst started h =
    rw (check_failed_below now inst started (omega arith)) (
      rw (fail_all_below nows (record inst { failures = inst.failures + 1 }) started (omega arith))
        (ap (λ k. (inst.status ∷ map (λ _. inst.status) nows, record inst { failures = k }))
          (omega arith)))

abbrev pub exhausted : ℕ → Instance → Instance
exhausted now inst =
    if tracked inst.config.restart_policy
    then record inst {
      failures = 0;
      action = restart;
      due = now + inst.restart_delay;
      restart_delay = widen inst.restart_delay;
    }
    else record inst { failures = inst.config.retries }

check_failed_limit :
    (now : ℕ) (inst : Instance)
    → inst.in_restart ≡ false
    → inst.failures + 1 ≡ inst.config.retries
    → check_failed now inst ≡ (exhausted now inst, "unhealthy")
unfolding check_failed
check_failed_limit now inst started limit = ground arith

-- Outside of the start period an instance with no failures counted keeps its status through retries
-- - 1 consecutive failed checks, and the one after them reports it unhealthy: under a restart
-- policy a restart falls due after the restart delay, which doubles up to its limit, and the count
-- starts afresh; without one nothing but the count has changed.
pub unhealthy_after_retries :
    (nows : List ℕ) (now : ℕ) (inst : Instance)
    → inst.in_restart ≡ false
    → inst.failures ≡ 0
    → length nows + 1 ≡ inst.config.retries
    → let (told, counted) = fail_all nows inst in
      (told ≡ map (λ _. inst.status) nows)
      × (check_failed now counted ≡ (exhausted now inst, "unhealthy"))
unhealthy_after_retries nows now inst started fresh limit =
    rw (fail_all_below nows inst started (omega arith)) (refl, last)
  where
    last :
        check_failed now (record inst { failures = inst.failures + length nows })
        ≡ (exhausted now inst, "unhealthy")
    last =
        check_failed_limit now (record inst { failures = inst.failures + length nows }) started
          (omega arith)

pow_pos : (n : ℕ) → 1 ≤ 2 ^ n
pow_pos zero = omega arith
pow_pos (suc n) = rw pow-suc (omega (arith, pow_pos n))

min-widen : (d p limit : ℕ) → 1 ≤ p → min (min (d * 2) limit * p) limit ≡ min (d * (2 * p)) limit
min-widen d p limit h = elim (dec_le (d * 2) limit) [
  | yes small ↦
      let e : min (d * 2) limit ≡ d * 2 = omega arith in omega (arith, ap (λ (t : ℕ). t * p) e)
  | no large ↦
      let e : min (d * 2) limit ≡ limit = omega arith in
      let grown : limit ≤ limit * p = grind arith in
      let rest : d * 2 ≡ limit + (d * 2 - limit) = omega arith in
      let more : limit * p ≤ d * 2 * p = omega (arith, ap (λ (t : ℕ). t * p) rest) in
      omega (arith, ap (λ (t : ℕ). t * p) e)
]

-- The delay that failed restarts leave for the next one.
restart_delay-refail :
    (nows : List ℕ) (inst : Instance)
    → inst.restart_delay ≤ max_restart_delay
    → (refail nows inst).restart_delay
      ≡ min (inst.restart_delay * 2 ^ length nows) max_restart_delay
unfolding refail restart_ended schedule_restart
restart_delay-refail [] inst h = omega arith
restart_delay-refail (now ∷ nows) inst h =
    let p = pow_pos (length nows) in
    rw
      (
        restart_delay-refail nows (schedule_restart now (record inst { state = idle }))
            (omega arith),
        pow-suc,
      )
      (min-widen inst.restart_delay (2 ^ length nows) max_restart_delay p
        ∙ ap (λ t. min (inst.restart_delay * t) max_restart_delay) (mul_comm 2 (2 ^ length nows)))

-- Where the restart delay is within its limit, one more failed restart after k of them leaves the
-- instance idle with a restart as its next action, due after 2^k times the delay it had at first,
-- or after the limit, whichever is less, and with twice that wait, up to the limit, as the next
-- delay.
pub refail_backoff :
    (nows : List ℕ) (now : ℕ) (inst : Instance)
    → inst.restart_delay ≤ max_restart_delay
    → let delay = min (inst.restart_delay * 2 ^ length nows) max_restart_delay in
      let failed = restart_ended now (some other) (refail nows inst) in
      (failed.state ≡ idle)
      × (failed.action ≡ restart)
      × (failed.due ≡ now + delay)
      × (failed.restart_delay ≡ min (delay * 2) max_restart_delay)
unfolding restart_ended schedule_restart
refail_backoff nows now inst h =
    let e = restart_delay-refail nows inst h in
    (refl, refl, ap (λ d. now + d) e, ap (λ d. widen d) e)
