-- ===== src/Enricher/Queue/Invariant.antt =====
-- The shape of a ring that the operations keep, and the line of addresses that it holds.
use native.Mathlib.Nat.{mod-eq_of_lt, mod-eq-sub-mod}
use native.Mathlib.Decide.{dec_lt, ℕ_discrete}
use incus_compose.Prelude.{
  ℕ, zero, suc, ◌+◌, ◌-◌, ◌%◌, ◌≤◌, ◌<◌, ◌≡◌, refl, ap, sym, ◌∙◌, ◌≢◌, ◌⊎◌, inl, inr, Option, none,
  List, [], ◌∷◌, ◌++◌, arith, length, take, drop, replicate, length-take, length-drop,
  length-replicate,
}
use incus_compose.Enricher.Queue.{Queue, copy, copy_at, moved, resize}
use incus_compose.Enricher.Queue.Window.{
  window, window-eq-slice, window-eq-wrap, length-window, copy-eq-append, length-copy, take-append,
}

module _ {ℓ} {E : Type ℓ} where
  -- Either nothing was ever allocated, or `head` is a slot and `tail` lies `count` slots further on.
  pub record IsValid (q : Queue E) : Type ℓ where
    pub fits : q.count ≤ length q.items
    pub shape :
        ((length q.items ≡ 0) × (q.head ≡ 0) × (q.tail ≡ 0))
        ⊎ ((q.head < length q.items) × (q.tail ≡ (q.head + q.count) % length q.items))

  -- The slots of the ring from the front of the line to its back.
  abbrev pub slots : Queue E → List (Option ℕ)
  slots q = window none q.items (length q.items) q.head q.count

module _ {ℓ} {A : Type ℓ} (d : A) where
  -- What a copy into a larger array holds at its front.
  window-copy :
      (n : ℕ) (fresh src : List A)
      → length fresh ≡ n
      → length src ≤ n
      → window d (copy fresh src) n 0 (length src) ≡ src
  window-copy n fresh src e h =
      window-eq-slice d (copy fresh src) n 0 (length src) (sym (length-copy fresh src ∙ e))
        (omega arith)
      ∙ ap (take (length src)) (copy-eq-append fresh src (omega arith))
      ∙ take-append (length src) src (drop (length src) fresh) refl

  copy_nil : (l : List A) → copy l [] ≡ l
  unfolding copy
  copy_nil [] = refl
  copy_nil (x ∷ l) = refl

  -- Two copies, one behind the other.
  copy-copy :
      (n : ℕ) (fresh xs ys : List A)
      → length fresh ≡ n
      → length xs + length ys ≤ n
      → copy_at (length xs) (copy fresh xs) ys ≡ copy fresh (xs ++ ys)
  unfolding copy_at copy
  copy-copy n fresh [] ys e h = ap (λ l. copy l ys) (copy_nil fresh)
  copy-copy n [] (x ∷ xs) ys e h = absurd (omega arith)
  copy-copy (suc n) (f ∷ fresh) (x ∷ xs) ys e h =
      ap (λ l. x ∷ l) (copy-copy n fresh xs ys (omega arith) (omega arith))
  copy-copy zero (f ∷ fresh) (x ∷ xs) ys e h = absurd (omega arith)

-- Where the tail of a line lies, by whether it passes the end of the array.
tail_flat : (l h c t : ℕ) → h < l → c ≤ l → t ≡ (h + c) % l → h < t → (t ≡ h + c) × (t < l)
tail_flat l h c t hh hc e lt = elim (dec_lt (h + c) l) [
  | yes p ↦ omega (arith, mod-eq_of_lt p)
  | no p ↦ absurd (omega (arith, mod-eq-sub-mod {n = h + c} {m = l} (omega arith), tail_small))
]
  where
    tail_small : (h + c - l) % l ≤ h
    tail_small = elim (dec_lt (h + c - l) l) [
      | yes q ↦ omega (arith, mod-eq_of_lt q)
      | no q ↦ absurd (omega arith)
    ]

tail_wrapped : (l h c t : ℕ) → h < l → c ≤ l → c ≢ 0 → t ≡ (h + c) % l → t ≤ h → t + l ≡ h + c
tail_wrapped l h c t hh hc nz e le = elim (dec_lt (h + c) l) [
  | yes p ↦ absurd (omega (arith, mod-eq_of_lt p))
  | no p ↦ omega (
    arith,
    mod-eq-sub-mod {n = h + c} {m = l} (omega arith),
    mod-eq_of_lt {n = h + c - l} {m = l} (omega arith),
  )
]

module _ {ℓ} {E : Type ℓ} where
  -- A line that does not wrap, and one that does.
  slots-eq-slice :
      (q : Queue E)
      → IsValid q
      → q.count ≢ 0
      → q.head < q.tail
      → slots q ≡ take (q.tail - q.head) (drop q.head q.items)
  slots-eq-slice q v nz lt = elim v.shape [
    | inl none_yet ↦ absurd (omega arith)
    | inr (hh, ht) ↦
        let (flat, inside) = tail_flat (length q.items) q.head q.count q.tail hh v.fits ht lt in
        window-eq-slice none q.items (length q.items) q.head q.count refl (omega arith)
        ∙ ap (λ k. take k (drop q.head q.items)) (omega arith)
  ]

  slots-eq-wrap :
      (q : Queue E)
      → IsValid q
      → q.count ≢ 0
      → q.tail ≤ q.head
      → slots q ≡ drop q.head q.items ++ take q.tail q.items
  slots-eq-wrap q v nz le = elim v.shape [
    | inl none_yet ↦ absurd (omega arith)
    | inr (hh, ht) ↦
        let round = tail_wrapped (length q.items) q.head q.count q.tail hh v.fits nz ht le in
        window-eq-wrap none q.items (length q.items) q.head (length q.items - q.head - 1) q.tail
          q.count refl (omega arith) (omega arith) (omega arith)
  ]

  parts :
      (q : Queue E)
      → IsValid q
      → (n : ℕ) → q.count ≤ n
      → q.count ≢ 0
      → q.tail ≤ q.head
      → (length (drop q.head q.items) ≡ length q.items - q.head)
        × (length (drop q.head q.items) + length (take q.tail q.items) ≤ n)
  parts q v n h nz le = elim v.shape [
    | inl none_yet ↦ absurd (omega arith)
    | inr (hh, ht) ↦
        let round = tail_wrapped (length q.items) q.head q.count q.tail hh v.fits nz ht le in
        omega (arith, length-drop q.head q.items, length-take q.tail q.items)
  ]

  -- Whichever way the line lies, a resize copies its slots in order to the front of the new array.
  pub moved-eq-copy :
      (n : ℕ) (q : Queue E)
      → IsValid q
      → q.count ≤ n
      → moved n q ≡ copy (replicate n none) (slots q)
  unfolding moved
  moved-eq-copy n q v h = elim (ℕ_discrete q.count 0) [
    | yes e ↦ rw e (sym (copy_nil none (replicate n none)))
    | no nz ↦ elim (dec_lt q.head q.tail) [
      | yes lt ↦ ground (arith, ap (copy (replicate n none)) (slots-eq-slice q v nz lt))
      | no ge ↦ ground (
        arith,
        ap (copy (replicate n none)) (slots-eq-wrap q v nz (omega arith)),
        copy-copy none n (replicate n none) (drop q.head q.items) (take q.tail q.items)
            (length-replicate n none) (parts q v n h nz (omega arith)).1,
        (parts q v n h nz (omega arith)).0,
      )
    ]
  ]

  -- A resize to an array that is large enough keeps the line, its order and its length.
  pub slots-resize :
      (n : ℕ) (q : Queue E)
      → IsValid q
      → 0 < n
      → q.count ≤ n
      → (slots (resize n q) ≡ slots q) × (length (resize n q).items ≡ n)
  unfolding resize
  slots-resize n q v pos h =
      let same : length (slots q) ≡ q.count =
        length-window none q.items (length q.items) q.head q.count in
      let size : length (moved n q) ≡ n =
        ap length (moved-eq-copy n q v h)
        ∙ length-copy (replicate n none) (slots q)
        ∙ length-replicate n none in
      (
        ap (λ l. window none l (length l) 0 q.count) (moved-eq-copy n q v h)
            ∙ ap (λ k. window none (copy (replicate n none) (slots q)) k 0 q.count)
                (length-copy (replicate n none) (slots q) ∙ length-replicate n none)
            ∙ ap (window none (copy (replicate n none) (slots q)) n 0) (sym same)
            ∙ window-copy none n (replicate n none) (slots q) (length-replicate n none)
                (omega arith),
        size,
      )

  pub resize-IsValid :
      (n : ℕ) (q : Queue E) → IsValid q → 0 < n → q.count ≤ n → IsValid (resize n q)
  unfolding resize
  resize-IsValid n q v pos h =
      let size : length (moved n q) ≡ n = (slots-resize n q v pos h).1 in
      record {
        fits = rw size h;
        shape = inr (rw size pos, rw size (ap (λ k. k % n) (omega arith)));
      }
