-- ===== src/Stack/Running.antt =====
-- A run of a Stack (client/stack.go): its batches one after the other, each on a pool of its own
-- (client/pool.go) that is run under any schedule and with any outcomes.
use incus_compose.Prelude.{
  ℕ, ◌+◌, ◌≡◌, refl, ap, ap₂, sym, ◌∙◌, Bool, true, false, some, List, [], ◌∷◌, ◌++◌, arith, concat,
  ◌⊎◌, if_split, if_push,
}
use incus_compose.Pool.{Pool, started, Reach, returned}
use incus_compose.Pool.Accounts.{count, count-append}
use incus_compose.Pool.Ends.{run-returns_nil}
use incus_compose.Stack.{
  Resource, Options, Stack, before, insert, sorted, sort, group_by_priority, submitted,
}
use incus_compose.Stack.Seen.{ids}
use incus_compose.Stack.Batches.{concat-group}

-- What runBatch hands to its pool.
abbrev pub tasks_of : List Resource → List ℕ
tasks_of batch = ids (submitted batch)

-- The batch has been run, and `errs` is what runBatch returned.
abbrev pub BatchRun : Options → List Resource → List ℕ → Pool → Type 0
BatchRun o batch errs p =
    Reach o.fail_fast (started o.workers (tasks_of batch)) p
    × (returned o.fail_fast o.workers (tasks_of batch) p ≡ some errs)

-- The loop over the batches: the errors joined, and the tasks that returned nil. With fail-fast the
-- batch that fails is the last.
pub data Runs (o : Options) : List (List Resource) → List ℕ → List ℕ → Type 0 where
  ends : Runs o [] [] []
  stops :
      (batch : List Resource) (rest : List (List Resource)) (e : ℕ) (errs : List ℕ) (p : Pool)
      → BatchRun o batch (e ∷ errs) p
      → o.fail_fast ≡ true
      → Runs o (batch ∷ rest) (e ∷ errs) p.finished
  goes_on :
      (batch : List Resource) (rest : List (List Resource)) (errs more done finished : List ℕ)
      (p : Pool)
      → BatchRun o batch errs p
      → (errs ≡ []) ⊎ (o.fail_fast ≡ false)
      → Runs o rest more finished
      → done ≡ p.finished ++ finished
      → Runs o (batch ∷ rest) (errs ++ more) done

submitted-append : (xs ys : List Resource) → submitted (xs ++ ys) ≡ submitted xs ++ submitted ys
unfolding submitted
submitted-append [] ys = refl
submitted-append (x ∷ xs) ys =
    let rest = submitted-append xs ys in
    if_push (λ l. l ++ submitted ys) x.ignored rest (ap (λ l. x ∷ l) rest)

ids-append : (xs ys : List Resource) → ids (xs ++ ys) ≡ ids xs ++ ids ys
ids-append [] ys = refl
ids-append (x ∷ xs) ys = ap (λ l. x.id ∷ l) (ids-append xs ys)

count-tasks_append :
    (t : ℕ) (xs ys : List Resource)
    → count t (tasks_of (xs ++ ys)) ≡ count t (tasks_of xs) + count t (tasks_of ys)
count-tasks_append t xs ys =
    ap (λ l. count t (ids l)) (submitted-append xs ys)
    ∙ ap (count t) (ids-append (submitted xs) (submitted ys))
    ∙ count-append t (tasks_of xs) (tasks_of ys)

count-tasks_insert :
    (desc : Bool) (t : ℕ) (r : Resource) (xs : List Resource)
    → count t (tasks_of (insert desc r xs)) ≡ count t (tasks_of (r ∷ xs))
unfolding insert submitted
count-tasks_insert desc t r [] = refl
count-tasks_insert desc t r (x ∷ xs) =
    if_split (λ l. count t (tasks_of l) ≡ count t (tasks_of (r ∷ x ∷ xs))) (before desc x r)
      (x ∷ insert desc r xs) (r ∷ x ∷ xs) (λ _. ground (arith, count-tasks_insert desc t r xs))
      (λ _. refl)

count-tasks_sorted :
    (desc : Bool) (t : ℕ) (rs : List Resource)
    → count t (tasks_of (sorted desc rs)) ≡ count t (tasks_of rs)
unfolding sorted submitted
count-tasks_sorted desc t [] = refl
count-tasks_sorted desc t (r ∷ rs) =
    count-tasks_insert desc t r (sorted desc rs) ∙ ground (arith, count-tasks_sorted desc t rs)

both_nil {ℓ} : {A : Type ℓ} (xs ys : List A) → xs ++ ys ≡ [] → (xs ≡ []) × (ys ≡ [])
both_nil [] ys e = (refl, e)
both_nil (x ∷ xs) ys e = cc e

Runs-finished :
    (o : Options) (batches : List (List Resource)) (errs finished : List ℕ)
    → Runs o batches errs finished
    → errs ≡ []
    → (t : ℕ) → count t finished ≡ count t (tasks_of (concat batches))
unfolding submitted
Runs-finished o batches errs finished ends e t = refl
Runs-finished o batches errs finished (stops batch rest x xs p run f) e t = cc e
Runs-finished o batches errs finished (goes_on batch rest now more done later p run f runs d) e t =
    let (quiet, quiet_after) = both_nil now more e in
    let here : count t p.finished ≡ count t (tasks_of batch) =
      run-returns_nil o.fail_fast o.workers (tasks_of batch) p run.0 (run.1 ∙ ap some quiet) t in
    let after = Runs-finished o rest more later runs quiet_after t in
    ap (count t) d
    ∙ count-append t p.finished later
    ∙ ap₂ (λ a b. a + b) here after
    ∙ sym (count-tasks_append t batch (concat rest))

-- Under any schedules and outcomes, with fail-fast or without, when a run of a stack returns nil
-- then every resource of it that is not ignored has had its action run, once for each time it is
-- held, and the action returned nil.
pub Run-returns_nil :
    (s : Stack) (finished : List ℕ)
    → Runs s.options (group_by_priority (sort s)) [] finished
    → (t : ℕ) → count t finished ≡ count t (tasks_of s.resources)
unfolding group_by_priority sort
Run-returns_nil s finished runs t =
    let desc = s.options.sort_descending in
    Runs-finished s.options (group_by_priority (sort s)) [] finished runs refl t
    ∙ ap (λ l. count t (tasks_of l)) (concat-group (sorted desc s.resources))
    ∙ count-tasks_sorted desc t s.resources
