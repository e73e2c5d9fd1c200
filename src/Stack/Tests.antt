-- ===== src/Stack/Tests.antt =====
-- The theorems on the Stack at concrete resources.
use incus_compose.Prelude.{
  ℕ, ◌≡◌, refl, true, false, ◌||◌, Option, none, some, List, [], ◌∷◌, concat, inl,
}
use incus_compose.Stack.{
  Resource, Options, Stack, elem, empty, add, sorted, sort, insert, group_from, group_by_priority,
  submitted,
}
use incus_compose.Stack.Sorting.{with_priority}
use incus_compose.Stack.Batches.{Layered, group_by_priority-Layered}
use incus_compose.Pool.{Pool, workers_of, here, next, receive, leave, begin, succeed, returned}
use incus_compose.Pool.Accounts.{count}
use incus_compose.Stack.Running.{tasks_of, ends, goes_on, Run-returns_nil}
use incus_compose.Stack.Seen.{ids, given, IsConsistent, add-IsConsistent}

abbrev resource : ℕ → ℕ → Resource
resource id priority = record {
  id = id;
  priority = priority;
  ignored = false;
  supports = λ _. true;
}

abbrev descending : Options
descending = record { workers = 4; sort_descending = true; fail_fast = false }

abbrev handed : List (Option Resource)
handed =
    some (resource 1 256)
    ∷ none
    ∷ some (resource 2 8192)
    ∷ some (resource 1 256)
    ∷ some (resource 3 256)
    ∷ []

abbrev mixed : Stack
mixed = record {
  options = descending;
  resources = resource 1 256 ∷ resource 2 8192 ∷ resource 3 256 ∷ [];
  seen = 3 ∷ 2 ∷ 1 ∷ [];
}

group_by_priority-Layered_example :
    Layered true (group_by_priority (sort mixed))
    × ((p : ℕ)
        → with_priority p (concat (group_by_priority (sort mixed)))
          ≡ with_priority p mixed.resources)
group_by_priority-Layered_example = group_by_priority-Layered mixed

add-IsConsistent_example :
    IsConsistent (add handed (empty descending))
    × ((i : ℕ)
        → elem i (ids (add handed (empty descending)).resources)
          ≡ (elem i (ids []) || elem i (given handed)))
add-IsConsistent_example = add-IsConsistent handed (empty descending) (tt, λ i. refl)

-- One resource, on one worker.
abbrev single : Stack
single = record {
  options = record { workers = 1; sort_descending = false; fail_fast = true };
  resources = resource 5 256 ∷ [];
  seen = 5 ∷ [];
}

abbrev single_pool : Pool
single_pool = record {
  waiting = [];
  idle = 0;
  holding = [];
  running = [];
  failing = 0;
  exited = 1;
  cancelled = false;
  errs = [];
  finished = 5 ∷ [];
  skipped = [];
}

Run-returns_nil_example : count 5 (5 ∷ []) ≡ count 5 (tasks_of single.resources)
unfolding sorted sort insert group_from group_by_priority submitted workers_of returned
Run-returns_nil_example =
    Run-returns_nil single (5 ∷ [])
      (goes_on (resource 5 256 ∷ []) [] [] [] (5 ∷ []) [] single_pool
        (
          next
              (next (next (next here (receive 5 0 [] refl refl)) (begin 5 [] [] refl refl))
                (succeed 5 [] [] refl))
              (leave 0 refl refl),
          refl,
        )
        (inl refl) ends refl)
      5
