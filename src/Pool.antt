-- ===== src/Pool.antt =====
-- The worker pool of client/pool.go: Run as a relation between the states its goroutines pass
-- through. A task is a number, and each may return nil or fail whenever it runs; the channels of
-- tasks and of errors are lists, both as long as the tasks, so no send waits.
pub mod Accounts
pub mod Ends
pub mod Steps
mod Tests
use incus_compose.Prelude.{
  ℕ, suc, ◌+◌, ◌≡◌, Bool, true, false, Option, none, some, List, [], ◌∷◌, ◌++◌, ltb, ◌==◌,
  if◌then◌else◌,
}

-- `waiting` is what taskCh still holds and `errs` what has been sent to errCh, by the task that
-- failed. A worker is idle, holds a task it has just received, runs one, has sent an error and is
-- about to close cancelCh (`failing`), or has exited. `finished` are the tasks that returned nil
-- and `skipped` those received after the cancel.
pub record Pool : Type 0 where
  pub waiting : List ℕ
  pub idle : ℕ
  pub holding : List ℕ
  pub running : List ℕ
  pub failing : ℕ
  pub exited : ℕ
  pub cancelled : Bool
  pub errs : List ℕ
  pub finished : List ℕ
  pub skipped : List ℕ

-- NewWorkerPool: at least one worker.
unfoldable pub workers_of : ℕ → ℕ
workers_of workers = if ltb workers 1 then 1 else workers

-- Run once the tasks are distributed and the workers started.
abbrev pub started : ℕ → List ℕ → Pool
started workers tasks = record {
  waiting = tasks;
  idle = workers_of workers;
  holding = [];
  running = [];
  failing = 0;
  exited = 0;
  cancelled = false;
  errs = [];
  finished = [];
  skipped = [];
}

-- One step of one worker, any that can go.
pub data Step (fail_fast : Bool) (p : Pool) : Pool → Type 0 where
  receive :
      (t n : ℕ) (rest : List ℕ)
      → p.waiting ≡ t ∷ rest
      → p.idle ≡ suc n
      → Step fail_fast p (record p { waiting = rest; idle = n; holding = t ∷ p.holding })
  leave :
      (n : ℕ)
      → p.waiting ≡ []
      → p.idle ≡ suc n
      → Step fail_fast p (record p { idle = n; exited = suc p.exited })
  skip :
      (t : ℕ) (xs ys : List ℕ)
      → p.holding ≡ xs ++ t ∷ ys
      → p.cancelled ≡ true
      → Step fail_fast p
          (record p { holding = xs ++ ys; exited = suc p.exited; skipped = t ∷ p.skipped })
  begin :
      (t : ℕ) (xs ys : List ℕ)
      → p.holding ≡ xs ++ t ∷ ys
      → p.cancelled ≡ false
      → Step fail_fast p (record p { holding = xs ++ ys; running = t ∷ p.running })
  succeed :
      (t : ℕ) (xs ys : List ℕ)
      → p.running ≡ xs ++ t ∷ ys
      → Step fail_fast p
          (record p { running = xs ++ ys; idle = suc p.idle; finished = t ∷ p.finished })
  fail :
      (t : ℕ) (xs ys : List ℕ)
      → p.running ≡ xs ++ t ∷ ys
      → fail_fast ≡ false
      → Step fail_fast p
          (record p { running = xs ++ ys; idle = suc p.idle; errs = p.errs ++ t ∷ [] })
  fail_last :
      (t : ℕ) (xs ys : List ℕ)
      → p.running ≡ xs ++ t ∷ ys
      → fail_fast ≡ true
      → Step fail_fast p
          (record p { running = xs ++ ys; failing = suc p.failing; errs = p.errs ++ t ∷ [] })
  cancel :
      (n : ℕ)
      → p.failing ≡ suc n
      → Step fail_fast p (record p { failing = n; exited = suc p.exited; cancelled = true })

-- The states some schedule comes to.
pub data Reach (fail_fast : Bool) (start : Pool) : Pool → Type 0 where
  here : Reach fail_fast start start
  next : {p q : Pool} → Reach fail_fast start p → Step fail_fast p q → Reach fail_fast start q

-- What Run returns, by the tasks whose errors it returns: none while it still waits, the first
-- error sent with fail-fast, and otherwise all of them once every worker has exited and errCh is
-- closed. Without tasks it returns at once.
unfoldable pub returned : Bool → ℕ → List ℕ → Pool → Option (List ℕ)
returned fail_fast workers [] p = some []
returned true workers (t ∷ tasks) p = elim p.errs [
  | [] ↦ if p.exited == workers_of workers then some [] else none
  | e ∷ es ↦ some (e ∷ [])
]
returned false workers (t ∷ tasks) p = if p.exited == workers_of workers then some p.errs else none
