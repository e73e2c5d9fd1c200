-- ===== src/Enricher/Queue/Refine.antt =====
-- The ring behaves as the line of the addresses that it holds.
use native.Mathlib.Nat.{mod-add-mod}
use native.Mathlib.Decide.{ℕ_discrete}
use incus_compose.Prelude.{
  ℕ, zero, suc, ◌+◌, ◌-◌, ◌*◌, ◌/◌, ◌%◌, ◌≤◌, ◌<◌, max, ◌≡◌, refl, ap, ap₂, sym, ◌∙◌, ◌≢◌, inl, inr,
  Bool, true, false, not, ◌&&◌, Option, none, some, List, [], ◌∷◌, ◌++◌, map, arith, length, set,
  get_or, length-set, Bool-cases, leb, ==_iff, ◌==◌,
}
use incus_compose.Enricher.Queue.{
  Queue, Item, min_ring, blank, item_at, resize, make_room, push, shrink, advance, take_from,
  take_line,
}
use incus_compose.Enricher.Queue.Window.{window, window-set, window-set_passed, length-window}
use incus_compose.Enricher.Queue.Invariant.{IsValid, slots, slots-resize, resize-IsValid}
use incus_compose.Enricher.Queue.Line.{Line, walk}
use incus_compose.Enricher.Queue.Line

step-tail : (l h c t : ℕ) → t ≡ (h + c) % l → (t + 1) % l ≡ (h + (c + 1)) % l
step-tail l h c t e = rw e (rw mod-add-mod (ap (λ k. k % l) (omega arith)))

step-head : (l h c t : ℕ) → 0 < c → t ≡ (h + c) % l → t ≡ ((h + 1) % l + (c - 1)) % l
step-head l h c t pos e = e ∙ sym (mod-add-mod (h + 1) l (c - 1) ∙ ap (λ k. k % l) (omega arith))

map-append_one : (xs : List ℕ) (a : ℕ) → map some (xs ++ a ∷ []) ≡ map some xs ++ some a ∷ []
map-append_one [] a = refl
map-append_one (x ∷ xs) a = ap (λ l. some x ∷ l) (map-append_one xs a)

mod_small : (n m : ℕ) → 0 < m → n % m < m
mod_small n m h = ground arith

length-map-some : (xs : List ℕ) → length (map some xs) ≡ length xs
length-map-some [] = refl
length-map-some (x ∷ xs) = ap suc (length-map-some xs)

module _ {ℓ} {E : Type ℓ} where
  -- The ring holds a line: its slots, in order, are the addresses of the line.
  pub record Holds (q : Queue E) (l : Line E) : Type ℓ where
    pub valid : IsValid q
    pub same_heap : q.heap ≡ l.heap
    pub same_line : slots q ≡ map some l.line

  resize-Holds :
      (n : ℕ) (q : Queue E) (l : Line E) → Holds q l → 0 < n → q.count ≤ n → Holds (resize n q) l
  resize-Holds n q l h pos fits = record {
    valid = resize-IsValid n q h.valid pos fits;
    same_heap = unfold resize in h.same_heap;
    same_line = (slots-resize n q h.valid pos fits).0 ∙ h.same_line;
  }

  full : (q : Queue E) → q.count ≡ length q.items → (q.count == length q.items) ≡ true
  full q e = (==_iff _ _).1 e

  not_full : (q : Queue E) → q.count ≢ length q.items → (q.count == length q.items) ≡ false
  not_full q ne = ground arith

  make_room-Holds :
      (q : Queue E) (l : Line E)
      → Holds q l
      → Holds (make_room q) l × ((make_room q).count < length (make_room q).items)
  unfolding make_room
  make_room-Holds q l h = elim (ℕ_discrete q.count (length q.items)) [
    | yes e ↦
        let grown : ℕ = max (length q.items * 2) min_ring in
        let kept = resize-Holds grown q l h (omega arith) (omega arith) in
        let size : length (resize grown q).items ≡ grown =
          (slots-resize grown q h.valid (omega arith) (omega arith)).1 in
        rw (full q e) (kept, rw size (unfold resize in omega arith))
    | no ne ↦ rw (not_full q ne) (h, omega (arith, h.valid.fits))
  ]

  shrink-Holds : (q : Queue E) (l : Line E) → Holds q l → Holds (shrink q) l
  unfolding shrink
  shrink-Holds q l h =
      elim (Bool-cases
        (leb min_ring (length q.items / 2) && leb q.count (length q.items / 2 / 2))) [
          | inl small ↦
              rw small (resize-Holds (length q.items / 2) q l h (ground arith) (ground arith))
          | inr large ↦ rw large h
        ]

  -- In a ring with a free slot or an entry, `head` is a slot and `tail` lies `count` further on.
  positioned :
      (q : Queue E)
      → IsValid q
      → 0 < length q.items
      → (q.head < length q.items) × (q.tail ≡ (q.head + q.count) % length q.items)
  positioned q v pos = elim v.shape [ inl none_yet ↦ absurd (omega arith) | inr there ↦ there ]

  slots-write :
      (q : Queue E) (x : Option ℕ)
      → IsValid q
      → q.count < length q.items
      → window none (set q.items q.tail x) (length (set q.items q.tail x)) q.head (q.count + 1)
        ≡ slots q ++ x ∷ []
  slots-write q x v free =
      let (hh, ht) = positioned q v (omega arith) in
      let more : q.count + 1 ≡ suc q.count = omega arith in
      ap₂ (λ k n. window none (set q.items q.tail x) k q.head n) (length-set q.items q.tail x) more
      ∙ window-set none q.items (length q.items) x q.count q.head q.tail refl hh free ht

  -- A push appends a fresh item to the line, whatever the ring had to do to make room.
  pub push-Holds :
      (ev : Option E) (settled : Bool) (q : Queue E) (l : Line E)
      → Holds q l
      → Holds (push ev settled q).1 (Line.push ev settled l)
        × ((push ev settled q).0 ≡ length l.heap)
  unfolding push Line.push
  push-Holds ev settled q l h =
      let room = make_room q in
      let (kept, free) = make_room-Holds q l h in
      let (hh, ht) = positioned room kept.valid (omega arith) in
      let address : length room.heap ≡ length l.heap = ap length kept.same_heap in
      (
        record {
          valid = record {
            fits = rw length-set (omega arith);
            shape =
                rw length-set
                  (inr (hh, step-tail (length room.items) room.head room.count room.tail ht));
          };
          same_heap = rw kept.same_heap;
          same_line =
              slots-write room (some (length room.heap)) kept.valid free
              ∙ ap₂ (λ xs a. xs ++ some a ∷ []) kept.same_line address
              ∙ sym (map-append_one l.line (length l.heap));
        },
        address,
      )

  -- The slots of a ring that is not empty: the front, and what is left after a round.
  slots-front :
      (q : Queue E) (c : ℕ)
      → q.count ≡ suc c
      → slots q
        ≡ get_or q.items q.head none
          ∷ window none q.items (length q.items) ((q.head + 1) % length q.items) c
  slots-front q c e = ap (window none q.items (length q.items) q.head) e

  abbrev cleared : Queue E → Queue E
  cleared q = record q {
    items = set q.items q.head none;
    head = (q.head + 1) % length q.items;
    count = q.count - 1;
  }

  slots-cleared :
      (q : Queue E) (c : ℕ)
      → IsValid q
      → q.count ≡ suc c
      → slots (cleared q) ≡ window none q.items (length q.items) ((q.head + 1) % length q.items) c
  slots-cleared q c v e =
      let (hh, ht) = positioned q v (omega (arith, v.fits)) in
      let fewer : q.count - 1 ≡ c = omega arith in
      ap₂ (λ k n. window none (set q.items q.head none) k ((q.head + 1) % length q.items) n)
        (length-set q.items q.head none) fewer
      ∙ window-set_passed none q.items (length q.items) none c q.head 0 hh (omega (arith, v.fits))

  cleared-IsValid : (q : Queue E) → IsValid q → 0 < q.count → IsValid (cleared q)
  cleared-IsValid q v pos =
      let (hh, ht) = positioned q v (omega (arith, v.fits)) in
      record {
        fits = rw length-set (omega (arith, v.fits));
        shape = rw length-set (
            inr (
              mod_small (q.head + 1) (length q.items) (omega arith),
              step-head (length q.items) q.head q.count q.tail pos ht,
            ));
      }

  advance-Holds :
      (q : Queue E) (heap : List (Item E)) (a : ℕ) (line : List ℕ)
      → Holds q (record { heap = heap; line = a ∷ line })
      → Holds (advance q) (record { heap = heap; line = line })
        × (get_or q.items q.head none ≡ some a)
        × (0 < q.count)
  unfolding advance
  advance-Holds q heap a line h = elim (ℕ_discrete q.count 0) [
    | yes e ↦ cc (ap (window none q.items (length q.items) q.head) e, h.same_line)
    | no ne ↦
        let c = q.count - 1 in
        let e : q.count ≡ suc c = omega arith in
        let front = sym (slots-front q c e) ∙ h.same_line in
        (
          shrink-Holds (cleared q) (record { heap = heap; line = line })
              (record {
                valid = cleared-IsValid q h.valid (omega arith);
                same_heap = h.same_heap;
                same_line = slots-cleared q c h.valid e ∙ cc front;
              }),
          cc front,
          omega arith,
        )
  ]

  -- The count is the length of the line.
  pub count-Holds : (q : Queue E) (l : Line E) → Holds q l → q.count ≡ length l.line
  count-Holds q l h =
      sym (length-window none q.items (length q.items) q.head q.count)
      ∙ ap length h.same_line
      ∙ length-map-some l.line

  -- The walk of the ring hands on what the walk of the line does, and leaves the ring holding the
  -- line that is left. As many rounds as there are entries are enough.
  pub take_from-Holds :
      (fuel : ℕ) (all : Bool) (more : ℕ) (q : Queue E) (heap : List (Item E)) (line : List ℕ)
      → Holds q (record { heap = heap; line = line })
      → q.count ≤ fuel
      → let (out, q') = take_from fuel all more q in
        let (out', line') = walk all heap more line in
        (out ≡ out') × Holds q' (record { heap = heap; line = line' })
  unfolding take_from walk
  take_from-Holds zero all more q heap [] h le = (refl, h)
  take_from-Holds (suc fuel) all more q heap [] h le =
      let e : (q.count == 0) ≡ true = (==_iff _ _).1 (count-Holds q _ h) in rw e (refl, h)
  take_from-Holds zero all more q heap (a ∷ line) h le = absurd (omega (arith, count-Holds q _ h))
  take_from-Holds (suc fuel) all more q heap (a ∷ line) h le =
      let (next, front, pos) = advance-Holds q heap a line h in
      let it = get_or heap a blank in
      let same : item_at q.heap (get_or q.items q.head none) ≡ it = ap₂ item_at h.same_heap front in
      let left : (q.count == 0) ≡ false = ground arith in
      let fits : (advance q).count ≤ fuel =
        omega (arith, count-Holds (advance q) _ next, count-Holds q _ h) in
      elim (Bool-cases (not all && not it.settled)) [
        | inl waits ↦ rw (same, left, waits) (refl, h)
        | inr ready ↦ elim (Bool-cases it.skip) [
          | inl skip ↦
              rw (same, left, ready, skip)
                (take_from-Holds fuel all more (advance q) heap line next fits)
          | inr keep ↦ elim (Bool-cases (more == 0)) [
            | inl last ↦ rw (same, left, ready, keep, last) (refl, next)
            | inr goes_on ↦
                let (out, rest) =
                  take_from-Holds fuel all (more - 1) (advance q) heap line next fits in
                rw (same, left, ready, keep, goes_on) (ap (λ l. it.ev ∷ l) out, rest)
          ]
        ]
      ]

  -- `release` and `drain` walk the whole line, with no fuel of their own.
  pub take_line-Holds :
      (all : Bool) (more : ℕ) (q : Queue E) (l : Line E)
      → Holds q l
      → let (out, q') = take_line all more q in
        let (out', line') = walk all l.heap more l.line in
        (out ≡ out') × Holds q' (record l { line = line' })
  unfolding take_line
  take_line-Holds all more q l h = take_from-Holds q.count all more q l.heap l.line h (omega arith)
