-- ===== src/Pool/Tests.antt =====
-- The theorems on the pool at a schedule of two workers and two tasks, the second of which fails.
use incus_compose.Prelude.{ℕ, ◌+◌, ◌*◌, ◌≤◌, ◌≡◌, refl, true, false, List, [], ◌∷◌, ◌⊎◌, length}
use incus_compose.Pool.{
  Pool, workers_of, started, receive, leave, begin, succeed, fail, Reach, here, next, returned,
}
use incus_compose.Pool.Accounts.{count}
use incus_compose.Pool.Ends.{run-bounded, run-returns_nil, run-returns_all}
use incus_compose.Pool.Steps.{steps, CanStep, run-terminates}

abbrev two_tasks : List ℕ
two_tasks = 1 ∷ 2 ∷ []

abbrev pool : List ℕ → ℕ → List ℕ → List ℕ → ℕ → List ℕ → List ℕ → Pool
pool waiting idle holding running exited errs finished = record {
  waiting = waiting;
  idle = idle;
  holding = holding;
  running = running;
  failing = 0;
  exited = exited;
  cancelled = false;
  errs = errs;
  finished = finished;
  skipped = [];
}

abbrev received : Reach false (started 2 (1 ∷ 2 ∷ [])) (pool [] 0 (2 ∷ 1 ∷ []) [] 0 [] [])
unfolding workers_of
received = next (next here (receive 1 1 (2 ∷ []) refl refl)) (receive 2 0 [] refl refl)

abbrev both_run : Reach false (started 2 (1 ∷ 2 ∷ [])) (pool [] 0 [] (1 ∷ 2 ∷ []) 0 [] [])
both_run = next (next received (begin 2 [] (1 ∷ []) refl refl)) (begin 1 [] [] refl refl)

abbrev both_ran : Reach false (started 2 (1 ∷ 2 ∷ [])) (pool [] 2 [] [] 0 (2 ∷ []) (1 ∷ []))
both_ran = next (next both_run (succeed 1 [] (2 ∷ []) refl)) (fail 2 [] [] refl refl)

abbrev ended : Reach false (started 2 (1 ∷ 2 ∷ [])) (pool [] 0 [] [] 2 (2 ∷ []) (1 ∷ []))
ended = next (next both_ran (leave 1 refl refl)) (leave 0 refl refl)

run-bounded_example : length (pool [] 0 [] (1 ∷ 2 ∷ []) 0 [] []).running ≤ workers_of 2
run-bounded_example = run-bounded false 2 (1 ∷ 2 ∷ []) (pool [] 0 [] (1 ∷ 2 ∷ []) 0 [] []) both_run

run-returns_all_example : count 2 (1 ∷ []) + count 2 (2 ∷ []) ≡ count 2 (1 ∷ 2 ∷ [])
unfolding returned workers_of
run-returns_all_example =
    run-returns_all 2 (1 ∷ 2 ∷ []) (pool [] 0 [] [] 2 (2 ∷ []) (1 ∷ [])) (2 ∷ []) ended refl 2

abbrev one_ended : Reach true (started 1 (5 ∷ [])) (pool [] 0 [] [] 1 [] (5 ∷ []))
unfolding workers_of
one_ended =
    next
      (next (next (next here (receive 5 0 [] refl refl)) (begin 5 [] [] refl refl))
        (succeed 5 [] [] refl))
      (leave 0 refl refl)

run-returns_nil_example : count 5 (5 ∷ []) ≡ count 5 (5 ∷ [])
unfolding returned workers_of
run-returns_nil_example =
    run-returns_nil true 1 (5 ∷ []) (pool [] 0 [] [] 1 [] (5 ∷ [])) one_ended refl 5

run-terminates_example :
    (steps ended ≤ 3 * length two_tasks + workers_of 2)
    × ((2 ≡ workers_of 2) ⊎ CanStep false (pool [] 0 [] [] 2 (2 ∷ []) (1 ∷ [])))
run-terminates_example =
    run-terminates false 2 two_tasks (pool [] 0 [] [] 2 (2 ∷ []) (1 ∷ [])) ended
