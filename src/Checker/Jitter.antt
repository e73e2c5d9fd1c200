-- ===== src/Checker/Jitter.antt =====
-- The jitter that `handleInstanceResult` (cmd/ic-healthd/checker/instance.go) adds to an interval:
-- `rand.N(interval/4)`, which panics for 0.
use incus_compose.Prelude.{
  ℕ, ◌/◌, ◌<◌, ◌≡◌, refl, ap, ◌∙◌, true, false, Option, none, some, String, List, [], ◌∷◌, ◌++◌,
  arith, ◌==◌, if◌then◌else◌, if_both, str_eq,
}
use incus_compose.Prelude.Dict.{lookup, Every-lookup}
use incus_compose.Checker.Types.{
  Instance, idle, checked, InstanceResult, Effect, cancel, Outcome, done, panicked, ◌>>=◌,
}
use incus_compose.Checker.Step.{is_restart, report_status}
use incus_compose.Checker.World.{World, key_of, keep}
use incus_compose.Checker.Actions.{settle}
use incus_compose.Checker.Results.{
  contexts_equal, adopt, expire_start, check_passed, next_check, rand_below, check_ended,
  release_context, if_current, dispatch_result, handle_instance_result,
}
use incus_compose.Checker.Sound.{is_some, IsSound}
use incus_compose.Checker.Fold.{AllSound}

-- The result is of the action that the instance has in flight.
pub record IsCurrent (res : InstanceResult) (w : World) (inst : Instance) : Type 0 where
  pub found : lookup (key_of res.project res.name) w.instances ≡ some inst
  pub in_hand : is_some inst.action_context ≡ true
  pub matching : res.ctx ≡ inst.action_context
  pub no_config : res.config ≡ none

contexts_equal_self : (c d : Option ℕ) → c ≡ d → contexts_equal c d ≡ true
contexts_equal_self none d e = ground arith
contexts_equal_self (some c) d e = ground arith

released : (c : Option ℕ) → is_some c ≡ true → (d : ℕ) × (c ≡ some d)
released none e = cc
released (some c) e = (c, refl)

module _ (now r : ℕ) (res : InstanceResult) (w : World) (inst : Instance) where
  if_current-eq :
      (next : Instance → Outcome World) → IsCurrent res w inst → if_current res next w ≡ next inst
  unfolding if_current
  if_current-eq next cur =
      ap by_held cur.found
      ∙ ap (λ b. if b then next inst else done w) (contexts_equal_self _ _ cur.matching)
    where
      by_held : Option Instance → Outcome World
      by_held o = elim o [
        | none ↦ done w
        | some i ↦ if contexts_equal res.ctx i.action_context then next i else done w
      ]

  release_context-eq :
      IsCurrent res w inst
      → IsSound w.next_context inst
      → (c : ℕ) × (release_context inst ≡ done (cancel c ∷ []))
  unfolding release_context
  release_context-eq cur v =
      let (c, e) = released inst.action_context cur.in_hand in
      (c, ap by_cancel (v.action.cancellable ∙ e))
    where
      by_cancel : Option ℕ → Outcome (List Effect)
      by_cancel o = elim o [ none ↦ panicked | some c ↦ done (cancel c ∷ []) ]

  -- A result in hand reaches `check_ended`, and ends as that does.
  checked-panics :
      IsCurrent res w inst
      → IsSound w.next_context inst
      → check_ended now r res inst ≡ panicked
      → dispatch_result now r checked res w ≡ panicked
  unfolding dispatch_result
  checked-panics cur v bad =
      let (c, e) = release_context-eq cur v in
      if_current-eq _ cur
      ∙ ap
          (λ m. m >>= λ fx. check_ended now r res inst >>= λ o.
            done (keep (key_of res.project res.name) o.0 (fx ++ o.1) w))
          e
      ∙ ap
          (λ m. m >>= λ o. done (keep (key_of res.project res.name) o.0 ((cancel c ∷ []) ++ o.1) w))
          bad

next_check_panics :
    (now r : ℕ) (i : Instance)
    → is_restart i.action ≡ false
    → i.in_restart ≡ false
    → i.config.interval < 4
    → next_check now r i ≡ panicked
unfolding next_check rand_below
next_check_panics now r i scheduled started short =
    let none_left : (i.config.interval / 4 == 0) ≡ true = ground arith in
    rw scheduled (rw started (rw none_left))

-- What a report leaves of the fields that the next check is scheduled by.
record SameSchedule (i j : Instance) : Type 0 where
  action : j.action ≡ i.action
  in_restart : j.in_restart ≡ i.in_restart
  config : j.config ≡ i.config

report_status-SameSchedule :
    (project want : String) (i : Instance) → SameSchedule i (report_status project want i).0
unfolding report_status
report_status-SameSchedule project want i =
    if_both (λ (o : Instance × List Effect). SameSchedule i o.0) (str_eq want i.status) _ _
      (record { action = refl; in_restart = refl; config = refl })
      (record { action = refl; in_restart = refl; config = refl })

plain_panics :
    (now r : ℕ) (res : InstanceResult) (inst : Instance)
    → is_restart inst.action ≡ false
    → inst.config.interval < 4
    → check_ended now r (record res { config = none; err = none }) inst ≡ panicked
unfolding check_ended adopt check_passed expire_start
plain_panics now r res inst scheduled short =
    ap (λ m. m >>= λ (i : Instance). done (i, told.1))
      (next_check_panics now r told.0 (ap is_restart same.action ∙ scheduled) same.in_restart
        (rw same.config short))
  where
    passed : Instance
    passed = check_passed (expire_start now (settle (record inst { state = idle })))

    told : Instance × List Effect
    told = report_status res.project "healthy" passed

    same : SameSchedule (record inst { in_restart = false }) told.0
    same =
        let s = report_status-SameSchedule res.project "healthy" passed in
        record { action = s.action; in_restart = s.in_restart; config = s.config }

module _ (now r : ℕ) (res : InstanceResult) (w : World) (inst : Instance) where
  -- On a sound fleet, the current report of a passing check panics the handler where the instance
  -- has no restart queued and an interval shorter than 4 ns.
  pub short_interval_panics :
      AllSound w
      → IsCurrent res w inst
      → res.kind ≡ checked
      → res.err ≡ none
      → is_restart inst.action ≡ false
      → inst.config.interval < 4
      → handle_instance_result now r res w ≡ panicked
  unfolding handle_instance_result
  short_interval_panics h cur kind passed scheduled short =
      ap (λ k. dispatch_result now r k res w) kind
      ∙ checked-panics now r res w inst cur
          (Every-lookup (IsSound w.next_context) _ w.instances h cur.found)
          (ap (λ x. check_ended now r x inst)
              (λ i. record res { config = cur.no_config i; err = passed i })
            ∙ plain_panics now r res inst scheduled short)
