-- ===== src/Pool/Ends.antt =====
-- How a run of the pool (client/pool.go) ends.
use incus_compose.Prelude.{
  ℕ, ◌+◌, ◌≤◌, ◌≡◌, refl, ap, sym, ◌∙◌, Bool, true, false, Option, none, some, List, [], ◌∷◌, ◌++◌,
  arith, ◌==◌, ==_iff, length, ◌⊎◌, inl, inr, if◌then◌else◌,
}
use incus_compose.Pool.{
  Pool, workers_of, started, Step, receive, leave, skip, begin, succeed, fail, fail_last, cancel,
  Reach, here, next, returned,
}
use incus_compose.Pool.Accounts.{count, Reach-hands, Reach-places}

-- Nothing has been given up.
abbrev pub IsQuiet : Pool → Type 0
IsQuiet p = (p.cancelled ≡ false) × (p.skipped ≡ []) × (p.failing ≡ 0)

-- Only an error under fail-fast makes the pool give up, and a worker of a pool that has not given
-- up exits only when no task is left.
abbrev pub IsOrderly : Bool → Pool → Type 0
IsOrderly fail_fast p =
    (fail_fast ≡ false → IsQuiet p)
    × (p.errs ≡ [] → IsQuiet p)
    × (IsQuiet p → (p.exited ≡ 0) ⊎ (p.waiting ≡ []))

snoc_ne {ℓ} : {A : Type ℓ} (xs : List A) (a : A) → xs ++ a ∷ [] ≡ [] → ⊥
snoc_ne [] a e = cc
snoc_ne (x ∷ xs) a e = cc

workers_pos : (workers : ℕ) → 1 ≤ workers_of workers
unfolding workers_of
workers_pos workers = ground arith

count_none : (t : ℕ) (xs : List ℕ) → length xs ≡ 0 → count t xs ≡ 0
count_none t [] e = refl
count_none t (x ∷ xs) e = absurd (omega (arith, e))

closed_of :
    (b : Bool) (es errs : List ℕ)
    → (if b then some es else none) ≡ some errs
    → (es ≡ errs) × (b ≡ true)
closed_of true es errs e = (cc e, refl)
closed_of false es errs e = cc e

first_of :
    (b : Bool) (es : List ℕ)
    → (elim es as (λ _. Option (List ℕ)) [
      | [] ↦ if b then some [] else none
      | e ∷ rest ↦ some (e ∷ [])
    ])
      ≡ some []
    → (es ≡ []) × (b ≡ true)
first_of b [] e = (refl, (closed_of b [] [] e).1)
first_of b (x ∷ es) e = cc e

-- What Run returns, read off the pool.
returned_nil_of :
    (fail_fast : Bool) (workers t : ℕ) (tasks : List ℕ) (p : Pool)
    → returned fail_fast workers (t ∷ tasks) p ≡ some []
    → (p.errs ≡ []) × (p.exited ≡ workers_of workers)
unfolding returned
returned_nil_of true workers t tasks p e =
    let (none_sent, closed) = first_of (p.exited == workers_of workers) p.errs e in
    (none_sent, (==_iff p.exited (workers_of workers)).0 closed)
returned_nil_of false workers t tasks p e =
    let (none_sent, closed) = closed_of (p.exited == workers_of workers) p.errs [] e in
    (none_sent, (==_iff p.exited (workers_of workers)).0 closed)

returned_errs_of :
    (workers t : ℕ) (tasks : List ℕ) (p : Pool) (errs : List ℕ)
    → returned false workers (t ∷ tasks) p ≡ some errs
    → (p.errs ≡ errs) × (p.exited ≡ workers_of workers)
unfolding returned
returned_errs_of workers t tasks p errs e =
    let (sent, closed) = closed_of (p.exited == workers_of workers) p.errs errs e in
    (sent, (==_iff p.exited (workers_of workers)).0 closed)

Step-IsOrderly :
    (fail_fast : Bool) (p q : Pool)
    → Step fail_fast p q
    → IsOrderly fail_fast p
    → IsOrderly fail_fast q
Step-IsOrderly fail_fast p q (receive t n rest w j) (slow, clean, out) = (
  slow,
  clean,
  λ quiet. elim (out quiet) [ inl none_out ↦ inl none_out | inr empty ↦ absurd (cc (w, empty)) ],
)
Step-IsOrderly fail_fast p q (leave n w j) (slow, clean, out) = (slow, clean, λ _. inr w)
Step-IsOrderly fail_fast p q (skip t xs ys h c) (slow, clean, out) = (
  λ f. absurd (cc (c, (slow f).0)),
  λ e. absurd (cc (c, (clean e).0)),
  λ quiet. absurd (cc (c, quiet.0)),
)
Step-IsOrderly fail_fast p q (begin t xs ys h c) orderly = orderly
Step-IsOrderly fail_fast p q (succeed t xs ys r) orderly = orderly
Step-IsOrderly fail_fast p q (fail t xs ys r f) (slow, clean, out) =
    (slow, λ e. absurd (snoc_ne p.errs t e), out)
Step-IsOrderly fail_fast p q (fail_last t xs ys r f) (slow, clean, out) = (
  λ g. absurd (cc (f, g)),
  λ e. absurd (snoc_ne p.errs t e),
  λ quiet. absurd (omega (arith, quiet.2)),
)
Step-IsOrderly fail_fast p q (cancel n f) (slow, clean, out) = (
  λ g. absurd (omega (arith, f, (slow g).2)),
  λ e. absurd (omega (arith, f, (clean e).2)),
  λ quiet. absurd (cc (quiet.0)),
)

module _ (fail_fast : Bool) (workers : ℕ) (tasks : List ℕ) where
  Reach-IsOrderly : (p : Pool) → Reach fail_fast (started workers tasks) p → IsOrderly fail_fast p
  Reach-IsOrderly p here = (λ _. (refl, refl, refl), λ _. (refl, refl, refl), λ _. inl refl)
  Reach-IsOrderly p (next {p = o} path step) =
      Step-IsOrderly fail_fast o p step (Reach-IsOrderly o path)

  -- Once every worker of a pool that gave nothing up has exited, each task has run.
  all_run :
      (p : Pool) (t : ℕ)
      → Reach fail_fast (started workers tasks) p
      → IsQuiet p
      → p.exited ≡ workers_of workers
      → count t p.finished + count t p.errs ≡ count t tasks
  all_run p t path quiet out =
      let all_hands = Reach-hands fail_fast workers tasks p path in
      let all_places = Reach-places fail_fast workers tasks t p path in
      let some_out = workers_pos workers in
      let empty : p.waiting ≡ [] = elim ((Reach-IsOrderly p path).2 quiet) [
        | inl none_out ↦ absurd (omega (arith, none_out, out, some_out))
        | inr e ↦ e
      ] in
      let no_waiting : count t p.waiting ≡ 0 = ap (count t) empty in
      let no_skipped : count t p.skipped ≡ 0 = ap (count t) quiet.1 in
      let no_holding = count_none t p.holding (omega (arith, all_hands, out)) in
      let no_running = count_none t p.running (omega (arith, all_hands, out)) in
      omega (arith, all_places, no_waiting, no_skipped, no_holding, no_running)

  -- Under any schedule and any outcomes of the tasks, never more of them run at one time than there
  -- are workers.
  pub run-bounded :
      (p : Pool) → Reach fail_fast (started workers tasks) p → length p.running ≤ workers_of workers
  run-bounded p path = omega (arith, Reach-hands fail_fast workers tasks p path)

-- Under any schedule and any outcomes, when Run returns nil then every task has run, as often as it
-- was submitted, and returned nil, with fail-fast or without.
pub run-returns_nil :
    (fail_fast : Bool) (workers : ℕ) (tasks : List ℕ) (p : Pool)
    → Reach fail_fast (started workers tasks) p
    → returned fail_fast workers tasks p ≡ some []
    → (t : ℕ) → count t p.finished ≡ count t tasks
run-returns_nil fail_fast workers [] p path e t =
    omega (arith, Reach-places fail_fast workers [] t p path)
run-returns_nil fail_fast workers (x ∷ tasks) p path e t =
    let (none_sent, out) = returned_nil_of fail_fast workers x tasks p e in
    let quiet = (Reach-IsOrderly fail_fast workers (x ∷ tasks) p path).1 none_sent in
    let no_errs : count t p.errs ≡ 0 = ap (count t) none_sent in
    let ran : count t p.finished + count t p.errs ≡ count t (x ∷ tasks) =
      all_run fail_fast workers (x ∷ tasks) p t path quiet out in
    omega (arith, ran, no_errs)

-- Without fail-fast, under any schedule and any outcomes, when Run returns then every task has run,
-- as often as it was submitted, and the error returned joins those of exactly the tasks that
-- failed.
pub run-returns_all :
    (workers : ℕ) (tasks : List ℕ) (p : Pool) (errs : List ℕ)
    → Reach false (started workers tasks) p
    → returned false workers tasks p ≡ some errs
    → (t : ℕ) → count t p.finished + count t errs ≡ count t tasks
unfolding returned
run-returns_all workers [] p errs path e t =
    let none_sent : errs ≡ [] = cc e in
    let no_errs : count t errs ≡ 0 = ap (count t) none_sent in
    omega (arith, Reach-places false workers [] t p path, no_errs)
run-returns_all workers (x ∷ tasks) p errs path e t =
    let (sent, out) = returned_errs_of workers x tasks p errs e in
    let quiet = (Reach-IsOrderly false workers (x ∷ tasks) p path).0 refl in
    ap (λ l. count t p.finished + count t l) (sym sent)
    ∙ all_run false workers (x ∷ tasks) p t path quiet out
