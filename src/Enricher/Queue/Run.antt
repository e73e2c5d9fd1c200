-- ===== src/Enricher/Queue/Run.antt =====
-- Any sequence of calls on the ring of ievent/enricher/queue.go, against the line.
use incus_compose.Prelude.{
  ℕ, ◌≤◌, ◌≡◌, refl, ap, ap₂, ◌∙◌, Bool, true, false, Option, some, List, [], ◌∷◌, map, length,
}
use incus_compose.Enricher.Queue.{Queue, push, settle, trash, release, drain, update}
use incus_compose.Enricher.Queue.Invariant.{slots}
use incus_compose.Enricher.Queue.Refine.{Holds, push-Holds, take_line-Holds}
use incus_compose.Enricher.Queue.Line
use incus_compose.Enricher.Queue.Line.{Line, events, ready, waiting, walk-ready, walk-all}

-- One call of the loop that owns the queue.
pub data Op {ℓ} (E : Type ℓ) : Type ℓ where
  push_op : Option E → Bool → Op E
  settle_op : ℕ → Option E → Op E
  trash_op : ℕ → Op E
  release_op : ℕ → Op E
  drain_op : ℕ → Op E

module _ {ℓ} {E : Type ℓ} where
  -- What each call hands on.
  unfoldable pub step : Op E → Queue E → List (Option E) × Queue E
  step (push_op ev settled) q = ([], (push ev settled q).1)
  step (settle_op a ev) q = ([], settle a ev q)
  step (trash_op a) q = ([], trash a q)
  step (release_op more) q = release more q
  step (drain_op more) q = drain more q

  pub step_line : Op E → Line E → List (Option E) × Line E
  step_line (push_op ev settled) l = ([], Line.push ev settled l)
  step_line (settle_op a ev) l = ([], Line.settle a ev l)
  step_line (trash_op a) l = ([], Line.trash a l)
  step_line (release_op more) l = Line.take false more l
  step_line (drain_op more) l = Line.take true more l

  unfoldable pub run : List (Op E) → Queue E → List (List (Option E))
  run [] q = []
  run (op ∷ ops) q = (step op q).0 ∷ run ops (step op q).1

  pub run_line : List (Op E) → Line E → List (List (Option E))
  run_line [] l = []
  run_line (op ∷ ops) l = (step_line op l).0 ∷ run_line ops (step_line op l).1

  step-Holds :
      (op : Op E) (q : Queue E) (l : Line E)
      → Holds q l
      → ((step op q).0 ≡ (step_line op l).0) × Holds (step op q).1 (step_line op l).1
  unfolding step step_line settle trash release drain Line.settle Line.trash Line.take
  step-Holds (push_op ev settled) q l h = (refl, (push-Holds ev settled q l h).0)
  step-Holds (settle_op a ev) q l h = (
    refl,
    record {
      valid = record { fits = h.valid.fits; shape = h.valid.shape };
      same_heap = ap (update a (λ it. record it { ev = ev; settled = true })) h.same_heap;
      same_line = h.same_line;
    },
  )
  step-Holds (trash_op a) q l h = (
    refl,
    record {
      valid = record { fits = h.valid.fits; shape = h.valid.shape };
      same_heap = ap (update a _) h.same_heap;
      same_line = h.same_line;
    },
  )
  step-Holds (release_op more) q l h = take_line-Holds false more q l h
  step-Holds (drain_op more) q l h = take_line-Holds true more q l h

  -- Where a ring holds a line, no sequence of pushes, settles, trashes, releases and drains tells
  -- the ring from the line: every call hands on the same events in the same order.
  pub run_refines :
      (ops : List (Op E)) (q : Queue E) (l : Line E) → Holds q l → run ops q ≡ run_line ops l
  unfolding run run_line
  run_refines [] q l h = refl
  run_refines (op ∷ ops) q l h =
      let (same, next) = step-Holds op q l h in
      ap₂ ◌∷◌ same (run_refines ops (step op q).1 (step_line op l).1 next)

  -- On a ring that holds a line, release, to a consumer that takes all it is offered, hands on
  -- exactly the events of the front items whose reads have landed, in arrival order and without the
  -- trashed ones, and leaves the ring holding the line from the first item still waiting on.
  pub release-eq-ready :
      (more : ℕ) (q : Queue E) (l : Line E)
      → Holds q l
      → length l.line ≤ more
      → ((release more q).0 ≡ events l.heap (ready l.heap l.line))
        × (slots (release more q).1 ≡ map some (waiting l.heap l.line))
  unfolding release
  release-eq-ready more q l h le =
      let (out, next) = take_line-Holds false more q l h in
      let spec = walk-ready l.heap more l.line le in
      (out ∙ ap (λ r. r.0) spec, next.same_line ∙ ap (λ r. map some r.1) spec)

  -- On a ring that holds a line, drain, to a consumer that takes all it is offered, hands on
  -- everything left in arrival order, settled or not, but for the trashed items, and leaves the
  -- ring empty.
  pub drain-eq-all :
      (more : ℕ) (q : Queue E) (l : Line E)
      → Holds q l
      → length l.line ≤ more
      → ((drain more q).0 ≡ events l.heap l.line) × (slots (drain more q).1 ≡ [])
  unfolding drain
  drain-eq-all more q l h le =
      let (out, next) = take_line-Holds true more q l h in
      let spec = walk-all l.heap more l.line le in
      (out ∙ ap (λ r. r.0) spec, next.same_line ∙ ap (λ r. map some r.1) spec)
