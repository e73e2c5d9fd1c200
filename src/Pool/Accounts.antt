-- ===== src/Pool/Accounts.antt =====
-- The accounts of the pool (client/pool.go): of its workers and of its tasks.
use incus_compose.Prelude.{
  ℕ, suc, ◌+◌, ◌≡◌, refl, ap, ◌∙◌, Bool, List, [], ◌∷◌, ◌++◌, arith, ◌==◌, length, length-append,
  if◌then◌else◌,
}
use incus_compose.Pool.{
  Pool, workers_of, started, Step, receive, leave, skip, begin, succeed, fail, fail_last, cancel,
  Reach, here, next,
}

abbrev pub count : ℕ → List ℕ → ℕ
count t [] = 0
count t (x ∷ xs) = if t == x then suc (count t xs) else count t xs

pub count-append : (t : ℕ) (xs ys : List ℕ) → count t (xs ++ ys) ≡ count t xs + count t ys
count-append t [] ys = omega arith
count-append t (x ∷ xs) ys = ground (arith, count-append t xs ys)

-- One element taken out of the middle.
pub count-middle :
    (i t : ℕ) (xs ys l : List ℕ) → l ≡ xs ++ t ∷ ys → count i l ≡ count i (t ∷ xs ++ ys)
count-middle i t xs ys l e =
    ap (count i) e ∙ ground (arith, count-append i xs ys, count-append i xs (t ∷ ys))

pub length-middle :
    (t : ℕ) (xs ys l : List ℕ) → l ≡ xs ++ t ∷ ys → length l ≡ suc (length (xs ++ ys))
length-middle t xs ys l e =
    ap length e ∙ omega (arith, length-append xs ys, length-append xs (t ∷ ys))

-- The workers, wherever they are.
abbrev pub hands : Pool → ℕ
hands p = p.idle + length p.holding + length p.running + p.failing + p.exited

-- The places a task can be in.
abbrev pub places : ℕ → Pool → ℕ
places t p =
    count t p.waiting
    + count t p.holding
    + count t p.running
    + count t p.finished
    + count t p.errs
    + count t p.skipped

Step-hands : (fail_fast : Bool) (p q : Pool) → Step fail_fast p q → hands q ≡ hands p
Step-hands fail_fast p q (receive t n rest w i) = omega (arith, i)
Step-hands fail_fast p q (leave n w i) = omega (arith, i)
Step-hands fail_fast p q (skip t xs ys h c) = omega (arith, length-middle t xs ys p.holding h)
Step-hands fail_fast p q (begin t xs ys h c) = omega (arith, length-middle t xs ys p.holding h)
Step-hands fail_fast p q (succeed t xs ys r) = omega (arith, length-middle t xs ys p.running r)
Step-hands fail_fast p q (fail t xs ys r f) = omega (arith, length-middle t xs ys p.running r)
Step-hands fail_fast p q (fail_last t xs ys r f) = omega (arith, length-middle t xs ys p.running r)
Step-hands fail_fast p q (cancel n f) = omega (arith, f)

Step-places : (fail_fast : Bool) (i : ℕ) (p q : Pool) → Step fail_fast p q → places i q ≡ places i p
Step-places fail_fast i p q (receive t n rest w j) = ground (arith, ap (count i) w)
Step-places fail_fast i p q (leave n w j) = refl
Step-places fail_fast i p q (skip t xs ys h c) = ground (arith, count-middle i t xs ys p.holding h)
Step-places fail_fast i p q (begin t xs ys h c) = ground (arith, count-middle i t xs ys p.holding h)
Step-places fail_fast i p q (succeed t xs ys r) = ground (arith, count-middle i t xs ys p.running r)
Step-places fail_fast i p q (fail t xs ys r f) =
    ground (arith, count-middle i t xs ys p.running r, count-append i p.errs (t ∷ []))
Step-places fail_fast i p q (fail_last t xs ys r f) =
    ground (arith, count-middle i t xs ys p.running r, count-append i p.errs (t ∷ []))
Step-places fail_fast i p q (cancel n f) = refl

module _ (fail_fast : Bool) (workers : ℕ) (tasks : List ℕ) where
  pub Reach-hands :
      (p : Pool) → Reach fail_fast (started workers tasks) p → hands p ≡ workers_of workers
  Reach-hands p here = omega arith
  Reach-hands p (next {p = o} path step) = Step-hands fail_fast o p step ∙ Reach-hands o path

  pub Reach-places :
      (t : ℕ) (p : Pool) → Reach fail_fast (started workers tasks) p → places t p ≡ count t tasks
  Reach-places t p here = omega arith
  Reach-places t p (next {p = o} path step) =
      Step-places fail_fast t o p step ∙ Reach-places t o path
