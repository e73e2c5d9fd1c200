-- ===== src/Pool/Steps.antt =====
-- The pool (client/pool.go) always comes to an end.
use incus_compose.Prelude.{
  ℕ, zero, suc, ◌+◌, ◌*◌, ◌≤◌, ◌≡◌, refl, ap, Bool, List, [], ◌∷◌, arith, length, ◌⊎◌, inl, inr,
  Bool-cases,
}
use incus_compose.Pool.{
  Pool, workers_of, started, Step, receive, leave, skip, begin, succeed, fail, fail_last, cancel,
  Reach, here, next,
}
use incus_compose.Pool.Accounts.{length-middle, Reach-hands}

-- The steps of a schedule.
abbrev pub steps : {fail_fast : Bool} {start p : Pool} → Reach fail_fast start p → ℕ
steps here = 0
steps (next path step) = suc (steps path)

-- What a pool still has to do.
abbrev pub work : Pool → ℕ
work p = 3 * length p.waiting + 3 * length p.holding + 2 * length p.running + p.idle + p.failing

Step-work : (fail_fast : Bool) (p q : Pool) → Step fail_fast p q → suc (work q) ≤ work p
Step-work fail_fast p q (receive t n rest w j) = omega (arith, ap length w, j)
Step-work fail_fast p q (leave n w j) = omega (arith, j)
Step-work fail_fast p q (skip t xs ys h c) = omega (arith, length-middle t xs ys p.holding h)
Step-work fail_fast p q (begin t xs ys h c) = omega (arith, length-middle t xs ys p.holding h)
Step-work fail_fast p q (succeed t xs ys r) = omega (arith, length-middle t xs ys p.running r)
Step-work fail_fast p q (fail t xs ys r f) = omega (arith, length-middle t xs ys p.running r)
Step-work fail_fast p q (fail_last t xs ys r f) = omega (arith, length-middle t xs ys p.running r)
Step-work fail_fast p q (cancel n f) = omega (arith, f)

module _ (fail_fast : Bool) (workers : ℕ) (tasks : List ℕ) where
  Reach-work :
      (p : Pool) (path : Reach fail_fast (started workers tasks) p)
      → steps path + work p ≤ 3 * length tasks + workers_of workers
  Reach-work p here = omega arith
  Reach-work p (next {p = o} path step) =
      omega (arith, Step-work fail_fast o p step, Reach-work o path)

abbrev pub CanStep : Bool → Pool → Type 0
CanStep fail_fast p = (q : Pool) × Step fail_fast p q

can_take :
    (fail_fast : Bool) (p : Pool) (n : ℕ) (l : List ℕ)
    → p.idle ≡ suc n
    → p.waiting ≡ l
    → CanStep fail_fast p
can_take fail_fast p n [] i w = (_, leave n w i)
can_take fail_fast p n (t ∷ rest) i w = (_, receive t n rest w i)

can_go_on :
    (fail_fast : Bool) (p : Pool) (t : ℕ) (rest : List ℕ)
    → p.holding ≡ t ∷ rest
    → CanStep fail_fast p
can_go_on fail_fast p t rest h = elim (Bool-cases p.cancelled) [
  | inl c ↦ (_, skip t [] rest h c)
  | inr c ↦ (_, begin t [] rest h c)
]

can_step :
    (fail_fast : Bool) (p : Pool) (i f : ℕ) (hs rs : List ℕ)
    → p.idle ≡ i
    → p.failing ≡ f
    → p.holding ≡ hs
    → p.running ≡ rs
    → (i + f + length hs + length rs ≡ 0) ⊎ CanStep fail_fast p
can_step fail_fast p (suc n) f hs rs i e h r = inr (can_take fail_fast p n p.waiting i refl)
can_step fail_fast p zero (suc n) hs rs i e h r = inr (_, cancel n e)
can_step fail_fast p zero zero (t ∷ hs) rs i e h r = inr (can_go_on fail_fast p t hs h)
can_step fail_fast p zero zero [] (t ∷ rs) i e h r = inr (_, succeed t [] rs r)
can_step fail_fast p zero zero [] [] i e h r = inl (omega arith)

-- No schedule is longer than three steps for each task and one for each worker; and when it can go
-- no further, tasks that run being always able to return, every worker has exited.
pub run-terminates :
    (fail_fast : Bool) (workers : ℕ) (tasks : List ℕ) (p : Pool)
    (path : Reach fail_fast (started workers tasks) p)
    → (steps path ≤ 3 * length tasks + workers_of workers)
      × ((p.exited ≡ workers_of workers) ⊎ CanStep fail_fast p)
run-terminates fail_fast workers tasks p path = (
  omega (arith, Reach-work fail_fast workers tasks p path),
  elim (can_step fail_fast p p.idle p.failing p.holding p.running refl refl refl refl) [
    | inl none_left ↦ inl (omega (arith, none_left, Reach-hands fail_fast workers tasks p path))
    | inr step ↦ inr step
  ],
)
