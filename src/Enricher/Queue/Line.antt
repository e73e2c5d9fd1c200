-- ===== src/Enricher/Queue/Line.antt =====
-- What the ring of ievent/enricher/queue.go promises: a plain line of items, oldest first, with no
-- array, no wrap and no resize.
use incus_compose.Prelude.{
  ℕ, ◌-◌, ◌≤◌, ◌≡◌, refl, arith, Bool, true, false, not, ◌&&◌, Option, none, List, [], ◌∷◌, ◌++◌,
  ◌==◌, if◌then◌else◌, length, get_or,
}
use incus_compose.Enricher.Queue.{Item, update, blank}

pub record Line {ℓ} (E : Type ℓ) : Type ℓ where
  pub heap : List (Item E)
  pub line : List ℕ

module _ {ℓ} {E : Type ℓ} where
  unfoldable pub push : Option E → Bool → Line E → Line E
  push ev settled l = record {
    heap = l.heap ++ record { ev = ev; settled = settled; skip = false } ∷ [];
    line = l.line ++ length l.heap ∷ [];
  }

  -- Take from the front until an item is not ready, or the consumer has had enough.
  unfoldable pub walk : Bool → List (Item E) → ℕ → List ℕ → List (Option E) × List ℕ
  walk all heap more [] = ([], [])
  walk all heap more (a ∷ line) =
      let it = get_or heap a blank in
      let skipped = walk all heap more line in
      let yielded = walk all heap (more - 1) line in
      if not all && not it.settled
      then ([], a ∷ line)
      else if it.skip
      then skipped
      else if more == 0
      then (it.ev ∷ [], line)
      else (it.ev ∷ yielded.0, yielded.1)

  unfoldable pub settle : ℕ → Option E → Line E → Line E
  settle a ev l = record l { heap = update a (λ it. record it { ev = ev; settled = true }) l.heap }

  unfoldable pub trash : ℕ → Line E → Line E
  trash a l = record l {
    heap = update a (λ it. record { ev = none; settled = true; skip = true }) l.heap;
  }

  unfoldable pub take : Bool → ℕ → Line E → List (Option E) × Line E
  take all more l = let (out, rest) = walk all l.heap more l.line in (out, record l { line = rest })

  -- The items at the front whose own read has landed, and the line behind them.
  pub ready : List (Item E) → List ℕ → List ℕ
  ready heap [] = []
  ready heap (a ∷ line) = if (get_or heap a blank).settled then a ∷ ready heap line else []

  pub waiting : List (Item E) → List ℕ → List ℕ
  waiting heap [] = []
  waiting heap (a ∷ line) = if (get_or heap a blank).settled then waiting heap line else a ∷ line

  -- What a stretch of the line hands on: the events of the items that were not trashed.
  pub events : List (Item E) → List ℕ → List (Option E)
  events heap [] = []
  events heap (a ∷ line) =
      let it = get_or heap a blank in if it.skip then events heap line else it.ev ∷ events heap line

  -- A consumer that takes all it is offered gets the events of the ready front, in order, and the
  -- line that is left begins with the first item still waiting.
  pub walk-ready :
      (heap : List (Item E)) (more : ℕ) (line : List ℕ)
      → length line ≤ more
      → walk false heap more line ≡ (events heap (ready heap line), waiting heap line)
  unfolding walk events ready waiting
  walk-ready heap more [] h = refl
  walk-ready heap more (a ∷ line) h =
      ground (arith, walk-ready heap more line, walk-ready heap (more - 1) line)

  pub walk-all :
      (heap : List (Item E)) (more : ℕ) (line : List ℕ)
      → length line ≤ more
      → walk true heap more line ≡ (events heap line, [])
  unfolding walk events
  walk-all heap more [] h = refl
  walk-all heap more (a ∷ line) h =
      ground (arith, walk-all heap more line, walk-all heap (more - 1) line)
