-- ===== src/Enricher/Queue/Tests.antt =====
-- Runs of the ring of ievent/enricher/queue.go on concrete input.
use incus_compose.Prelude.{ℕ, ◌≡◌, refl, inr, true, false, some, List, [], ◌∷◌, map, arith}
use incus_compose.Enricher.Queue.{
  Queue, push, settle, trash, make_room, resize, moved, copy, copy_at, take_from, take_line,
  release, drain, advance, shrink,
}
use incus_compose.Enricher.Queue.Invariant.{slots}
use incus_compose.Enricher.Queue.Line.{Line, events, ready, waiting}
use incus_compose.Enricher.Queue.Refine.{Holds}
use incus_compose.Enricher.Queue.Run.{
  Op, push_op, settle_op, trash_op, release_op, drain_op, step, run, run_line, run_refines,
  release-eq-ready, drain-eq-all,
}

-- Two items in a ring of two that goes round the end: 7 has settled, 8 is still waiting.
abbrev wrapped : Queue ℕ
wrapped = record {
  heap =
      record { ev = some 6; settled = true; skip = false }
      ∷ record { ev = some 7; settled = true; skip = false }
      ∷ record { ev = some 8; settled = false; skip = false }
      ∷ [];
  items = some 2 ∷ some 1 ∷ [];
  head = 1;
  tail = 1;
  count = 2;
}

abbrev pair : Line ℕ
pair = record { heap = wrapped.heap; line = 1 ∷ 2 ∷ [] }

wrapped-Holds : Holds wrapped pair
wrapped-Holds = record {
  valid = record { fits = omega arith; shape = inr (omega arith, omega arith) };
  same_heap = refl;
  same_line = refl;
}

abbrev script : List (Op ℕ)
script =
    push_op (some 9) true
    ∷ release_op 9
    ∷ settle_op 2 (some 80)
    ∷ trash_op 3
    ∷ release_op 9
    ∷ drain_op 9
    ∷ []

run-script : run script wrapped ≡ [] ∷ (some 7 ∷ []) ∷ [] ∷ [] ∷ (some 80 ∷ []) ∷ [] ∷ []
unfolding run step push make_room resize moved copy copy_at settle trash release drain take_line
    take_from advance shrink
run-script = refl

run_refines_example : run script wrapped ≡ run_line script pair
run_refines_example = run_refines script wrapped pair wrapped-Holds

release-eq-ready_example :
    ((release 2 wrapped).0 ≡ events pair.heap (ready pair.heap (1 ∷ 2 ∷ [])))
    × (slots (release 2 wrapped).1 ≡ map some (waiting pair.heap (1 ∷ 2 ∷ [])))
release-eq-ready_example = release-eq-ready 2 wrapped pair wrapped-Holds (omega arith)

drain-eq-all_example :
    ((drain 2 wrapped).0 ≡ events pair.heap (1 ∷ 2 ∷ [])) × (slots (drain 2 wrapped).1 ≡ [])
drain-eq-all_example = drain-eq-all 2 wrapped pair wrapped-Holds (omega arith)
