-- ===== src/Enricher/Queue.antt =====
-- The ring of ievent/enricher/queue.go: arrival order kept across reads that finish in any order.
-- An `*item` is an address into `heap`, so that `settle` and `trash`, which write through a pointer
-- that the caller holds, reach the item wherever a resize has moved its slot.
pub mod Line
pub mod Window
pub mod Invariant
pub mod Refine
pub mod Run
mod Tests
use incus_compose.Prelude.{
  ℕ, zero, suc, ◌+◌, ◌-◌, ◌*◌, ◌/◌, ◌%◌, max, Bool, true, false, not, ◌&&◌, Option, none, some,
  List, [], ◌∷◌, ◌++◌, ltb, leb, ◌==◌, if◌then◌else◌, length, get_or, set, take, drop, replicate,
}

-- One event's place in the line.
pub record Item {ℓ} (E : Type ℓ) : Type ℓ where
  pub ev : Option E
  pub settled : Bool
  pub skip : Bool

pub record Queue {ℓ} (E : Type ℓ) : Type ℓ where
  pub heap : List (Item E)
  pub items : List (Option ℕ)
  pub head : ℕ
  pub tail : ℕ
  pub count : ℕ

abbrev pub min_ring : ℕ
min_ring = 2

-- Go's `copy(dst, src)`: as many elements as the shorter one holds.
pub copy {ℓ} : {A : Type ℓ} → List A → List A → List A
copy [] src = []
copy (d ∷ dst) [] = d ∷ dst
copy (d ∷ dst) (s ∷ src) = s ∷ copy dst src

-- `copy(dst[k:], src)`
pub copy_at {ℓ} : {A : Type ℓ} → ℕ → List A → List A → List A
copy_at k dst src = take k dst ++ copy (drop k dst) src

module _ {ℓ} {E : Type ℓ} where
  pub moved : ℕ → Queue E → List (Option ℕ)
  moved n q =
      let fresh : List (Option ℕ) = replicate n none in
      if q.count == 0
      then fresh
      else if ltb q.head q.tail
      then copy fresh (take (q.tail - q.head) (drop q.head q.items))
      else copy_at (length q.items - q.head) (copy fresh (drop q.head q.items))
          (take q.tail q.items)

  pub resize : ℕ → Queue E → Queue E
  resize n q = record q { items = moved n q; head = 0; tail = q.count % n }

  pub make_room : Queue E → Queue E
  make_room q =
      if q.count == length q.items then resize (max (length q.items * 2) min_ring) q else q

  -- The address handed back is the `*item` of the source.
  pub push : Option E → Bool → Queue E → ℕ × Queue E
  push ev settled q =
      let room = make_room q in
      let address = length room.heap in
      (
        address,
        record room {
          heap = room.heap ++ record { ev = ev; settled = settled; skip = false } ∷ [];
          items = set room.items room.tail (some address);
          tail = (room.tail + 1) % length room.items;
          count = room.count + 1;
        },
      )

  abbrev pub update : ℕ → (Item E → Item E) → List (Item E) → List (Item E)
  update a f [] = []
  update zero f (it ∷ heap) = f it ∷ heap
  update (suc a) f (it ∷ heap) = it ∷ update a f heap

  pub settle : ℕ → Option E → Queue E → Queue E
  settle a ev q = record q { heap = update a (λ it. record it { ev = ev; settled = true }) q.heap }

  pub trash : ℕ → Queue E → Queue E
  trash a q = record q {
    heap = update a (λ it. record { ev = none; settled = true; skip = true }) q.heap;
  }

  -- A nil slot is never read in a well-formed ring; reading one here gives an unsettled item.
  abbrev pub blank : Item E
  blank = record { ev = none; settled = false; skip = false }

  abbrev pub item_at : List (Item E) → Option ℕ → Item E
  item_at heap none = blank
  item_at heap (some a) = get_or heap a blank

  pub shrink : Queue E → Queue E
  shrink q =
      let half = length q.items / 2 in
      if leb min_ring half && leb q.count (half / 2) then resize half q else q

  -- One round of the loop of `take`, up to the yield.
  pub advance : Queue E → Queue E
  advance q = shrink (record q {
    items = set q.items q.head none;
    head = (q.head + 1) % length q.items;
    count = q.count - 1;
  })

  -- `more` is the number of yields that the consumer answers with true; the next one stops the walk.
  pub take_from : ℕ → Bool → ℕ → Queue E → List (Option E) × Queue E
  take_from zero all more q = ([], q)
  take_from (suc fuel) all more q =
      let it = item_at q.heap (get_or q.items q.head none) in
      let skipped = take_from fuel all more (advance q) in
      let yielded = take_from fuel all (more - 1) (advance q) in
      if q.count == 0
      then ([], q)
      else if not all && not it.settled
      then ([], q)
      else if it.skip
      then skipped
      else if more == 0
      then (it.ev ∷ [], advance q)
      else (it.ev ∷ yielded.0, yielded.1)

  -- Each round takes one entry, so `count` rounds are enough.
  pub take_line : Bool → ℕ → Queue E → List (Option E) × Queue E
  take_line all more q = take_from q.count all more q

  pub release : ℕ → Queue E → List (Option E) × Queue E
  release more q = take_line false more q

  pub drain : ℕ → Queue E → List (Option E) × Queue E
  drain more q = take_line true more q
