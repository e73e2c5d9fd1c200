-- ===== src/Checker/Rounds.antt =====
-- `runInstanceActions` on a sound fleet: it never panics, and leaves the fleet sound.
use incus_compose.Prelude.{
  ℕ, suc, ◌+◌, ◌≤◌, ◌≡◌, refl, ap, sym, ◌∙◌, Bool, true, false, not, Option, none, some, String,
  List, [], ◌∷◌, arith, ltb, if◌then◌else◌, if_both, if_split,
}
use mathlib.Core.Path.{subst}
use incus_compose.Prelude.Dict.{Dict, Every, Every-mono}
use incus_compose.Checker.Types.{
  Instance, InstanceState, InstanceAction, check, restart, unset, idle, checking, restarting,
  Effect, cancel, Outcome, done, panicked, ◌>>=◌,
}
use incus_compose.Checker.Step.{is_idle, is_checking, is_restart, report_status, check_failed}
use incus_compose.Checker.World.{World}
use incus_compose.Checker.Actions.{
  Turn, Visit, after, settle, reap_check, reap_restart, reap, deferred, begin_restart, begin_check,
  begin, unchanged, visit, Round, next_of, visit_all, run_instance_actions,
}
use incus_compose.Checker.Sound.{
  is_some, IsSound, widen-InRange, settled-IsTracked, check_failed-IsSound, report_status-IsSound,
  IsSound-mono,
}
use incus_compose.Checker.Fold.{AllSound}

-- The value is there, and satisfies the predicate.
pub data Returns {ℓ κ} {A : Type ℓ} (P : A → Type κ) : Outcome A → Type (ℓ ⊔ κ) where
  returns : (a : A) → P a → Returns P (done a)

pub Returns-done {ℓ κ} :
    {A : Type ℓ} (P : A → Type κ) {m : Outcome A} {b : A} → Returns P m → m ≡ done b → P b
Returns-done P (returns a p) e = subst P (cc e) p

pub Returns-bind {ℓ κ} :
    {A B : Type ℓ} (P : A → Type κ) (Q : B → Type κ) (m : Outcome A) (f : A → Outcome B)
    → Returns P m
    → ((a : A) → P a → Returns Q (f a))
    → Returns Q (m >>= f)
Returns-bind P Q m f (returns a p) k = k a p

module _ (n now : ℕ) where
  settle-IsSound :
      (inst : Instance) → IsSound n inst → IsSound n (settle (record inst { state = idle }))
  settle-IsSound inst v = record {
    action = settled-IsTracked n idle refl;
    delay = v.delay;
    config = v.config;
  }

  reap_check-IsSound : (inst : Instance) → IsSound n inst → IsSound n (reap_check now inst).0
  unfolding reap_check
  reap_check-IsSound inst v =
      let failed = check_failed now inst in
      let t =
        report_status-IsSound n inst.project failed.1 failed.0
          (check_failed-IsSound n now inst v) in
      let told = (report_status inst.project failed.1 failed.0).0 in
      if_both (IsSound n) (is_restart told.action) told
        (record told { due = now + told.config.interval }) t
        (record { action = t.action; delay = t.delay; config = t.config })

  reap_restart-IsSound : (inst : Instance) → IsSound n inst → IsSound n (reap_restart now inst).0
  unfolding reap_restart
  reap_restart-IsSound inst v = record {
    action = v.action;
    delay = widen-InRange v.delay;
    config = v.config;
  }

-- What a visit leaves: a sound instance, and a context counter that has passed its context.
abbrev VisitSound : ℕ → Visit → Type 0
VisitSound n v = IsSound (next_of v.submitted n) v.inst

module _ (t : Turn) (k : String) (n : ℕ) where
  reap-Returns :
      (inst : Instance)
      → IsSound n inst
      → is_some inst.action_context ≡ true
      → Returns (VisitSound n) (reap t.now inst)
  unfolding reap
  reap-Returns inst v held = by_cancel inst.action_cancel (ap is_some v.action.cancellable ∙ held)
    where
      left : Instance × List Effect
      left =
          if is_checking inst.state
          then reap_check t.now (settle (record inst { state = idle }))
          else reap_restart t.now (settle (record inst { state = idle }))

      left-IsSound : IsSound n left.0
      left-IsSound =
          if_both (λ (r : Instance × List Effect). IsSound n r.0) (is_checking inst.state) _ _
            (reap_check-IsSound n t.now _ (settle-IsSound n t.now inst v))
            (reap_restart-IsSound n t.now _ (settle-IsSound n t.now inst v))

      by_cancel :
          (c : Option ℕ)
          → is_some c ≡ true
          → Returns (VisitSound n) (elim c [
            | none ↦ panicked
            | some c ↦ done (record {
              inst = left.0;
              effects = cancel c ∷ left.1;
              wake = none;
              submitted = false;
            })
          ])
      by_cancel none e = cc
      by_cancel (some c) e = returns _ left-IsSound

  begun-IsSound :
      (next : InstanceState) (deadline : ℕ) (inst : Instance)
      → IsSound n inst
      → IsSound (suc n) (record inst {
        state = next;
        action_deadline = some deadline;
        action_context = some n;
        action_cancel = some n;
      })
  begun-IsSound next deadline inst v = record {
    action = record { flight = λ e. refl; cancellable = refl; timed = refl; issued = omega arith };
    delay = v.delay;
    config = v.config;
  }

  deferred-VisitSound : (inst : Instance) → IsSound n inst → VisitSound n (deferred t k inst)
  unfolding deferred
  deferred-VisitSound inst v = record { action = v.action; delay = v.delay; config = v.config }

  begin-VisitSound :
      (action : InstanceAction) (inst : Instance)
      → IsSound n inst
      → VisitSound n (begin t k n action inst)
  unfolding begin begin_restart begin_check unchanged
  begin-VisitSound unset inst v = v
  begin-VisitSound restart inst v =
      if_both (VisitSound n) (t.free k) _ _ (begun-IsSound restarting _ inst v)
        (deferred-VisitSound inst v)
  begin-VisitSound check inst v = if_both (VisitSound n) _ _ _ v (
      if_both (VisitSound n) (t.free k) _ _ (begun-IsSound checking _ inst v)
        (deferred-VisitSound inst v))

  visit-Returns : (inst : Instance) → IsSound n inst → Returns (VisitSound n) (visit t k n inst)
  unfolding visit unchanged
  visit-Returns inst v =
      if_both (Returns (VisitSound n)) (not (is_idle inst.state)) _ _
        (if_split (Returns (VisitSound n)) (after t.now inst.action_deadline) _ _
          (λ late.
            reap-Returns inst v (sym v.action.timed ∙ has_deadline inst.action_deadline late))
          (λ _. returns _ v))
        (if_both (Returns (VisitSound n)) (ltb t.now inst.due) _ _ (returns _ v)
          (returns _ (begin-VisitSound inst.action inst v)))
    where
      has_deadline : (d : Option ℕ) → after t.now d ≡ true → is_some d ≡ true
      has_deadline none e = cc
      has_deadline (some d) e = refl

next_of_le : (b : Bool) (n : ℕ) → n ≤ next_of b n
next_of_le true n = omega arith
next_of_le false n = omega arith

-- What a round leaves: sound instances, under a counter that has not gone back.
record RoundSound (n : ℕ) (r : Round) : Type 0 where
  grown : n ≤ r.next_context
  sound : Every (IsSound r.next_context) r.instances

visit_all-Returns :
    (t : Turn) (n : ℕ) (m : Dict Instance)
    → Every (IsSound n) m
    → Returns (RoundSound n) (visit_all t n m)
unfolding visit_all
visit_all-Returns t n [] h = returns _ (record { grown = omega arith; sound = tt })
visit_all-Returns t n ((k, inst) ∷ rest) h =
    Returns-bind (VisitSound n) (RoundSound n) (visit t k n inst) _ (visit-Returns t k n inst h.0)
      λ v s.
        let n' = next_of v.submitted n in
        Returns-bind (RoundSound n') (RoundSound n) (visit_all t n' rest) _
          (visit_all-Returns t n' rest (
            Every-mono (IsSound n) (IsSound n') rest
              (λ i. IsSound-mono n n' i (next_of_le v.submitted n)) h.1))
          λ r q. returns _ (record {
            grown = omega (arith, next_of_le v.submitted n, q.grown);
            sound = (IsSound-mono n' r.next_context v.inst q.grown s, q.sound);
          })

-- On a sound fleet runInstanceActions always returns, no watchdog calling a nil cancel function,
-- and leaves every instance sound.
pub run_instance_actions-Returns :
    (t : Turn) (w : World) → AllSound w → Returns (λ r. AllSound r.0) (run_instance_actions t w)
unfolding run_instance_actions
run_instance_actions-Returns t w h =
    Returns-bind (RoundSound w.next_context) (λ r. AllSound r.0)
      (visit_all t w.next_context w.instances) _ (visit_all-Returns t w.next_context w.instances h)
      λ r q. returns _ q.sound
