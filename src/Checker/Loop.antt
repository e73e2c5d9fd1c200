-- ===== src/Checker/Loop.antt =====
-- The loop of Run (cmd/ic-healthd/checker/checker.go) as a step relation: events, rounds, reports of
-- the actions and the results that the loop receives, in any order.
use incus_compose.Prelude.{ℕ, ◌<◌, ◌≡◌, sym, Bool, List, [], ◌∷◌, ◌++◌, Option, length}
use mathlib.Core.Path.{subst}
use incus_compose.Checker.Types.{InstanceResult, done, results_cap}
use incus_compose.Checker.Config.{Decoders}
use incus_compose.Checker.World.{Event, World}
use incus_compose.Checker.Events.{fold}
use incus_compose.Checker.Actions.{Turn, run_instance_actions}
use incus_compose.Checker.Results.{handle_instance_result}
use incus_compose.Checker.Fold.{Ensures, AllSound, fold-AllSound}
use incus_compose.Checker.Rounds.{Returns, Returns-done, run_instance_actions-Returns}
use incus_compose.Checker.Replies.{IsReport, handle_instance_result-AllSound}

module _ (dec : Decoders) (serve : Event → Bool) where
  pub data Step (w w' : World) : Type 0 where
    event : (now : ℕ) (ev : Event) → fold dec serve now ev w ≡ done w' → Step w w'
    round : (t : Turn) (wake : Option ℕ) → run_instance_actions t w ≡ done (w', wake) → Step w w'
    report :
        (res : InstanceResult)
        → length w.results < results_cap
        → w' ≡ record w { results = w.results ++ res ∷ [] }
        → Step w w'
    receive :
        (now r : ℕ) (res : InstanceResult) (rest : List InstanceResult)
        → IsReport res
        → w.results ≡ res ∷ rest
        → handle_instance_result now r res (record w { results = rest }) ≡ done w'
        → Step w w'

  pub data Reach (w : World) : World → Type 0 where
    here : Reach w w
    next : {u v : World} → Reach w u → Step u v → Reach w v

  Step-AllSound : (w w' : World) → Step w w' → AllSound w → AllSound w'
  Step-AllSound w w' (event now ev e) h =
      subst (Ensures AllSound) e (fold-AllSound now ev dec serve w h)
  Step-AllSound w w' (round t wake e) h =
      Returns-done (λ (r : World × Option ℕ). AllSound r.0) (run_instance_actions-Returns t w h) e
  Step-AllSound w w' (report res room e) h = subst AllSound (sym e) h
  Step-AllSound w w' (receive now r res rest p _ e) h =
      subst (Ensures AllSound) e
        (handle_instance_result-AllSound now r res (record w { results = rest }) h p)

  Reach-AllSound : (w u : World) → Reach w u → AllSound w → AllSound u
  Reach-AllSound w u here h = h
  Reach-AllSound w u (next {u = v} path step) h = Step-AllSound v u step (Reach-AllSound w v path h)

  -- From a sound fleet, whatever events, rounds, reports and results the daemon meets in whatever
  -- order, the next round of actions returns and leaves the fleet sound: the watchdog never calls a
  -- nil cancel function.
  pub reachable-Returns :
      (w u : World)
      → AllSound w
      → Reach w u
      → (t : Turn) → Returns (λ r. AllSound r.0) (run_instance_actions t u)
  reachable-Returns w u h path t = run_instance_actions-Returns t u (Reach-AllSound w u path h)
