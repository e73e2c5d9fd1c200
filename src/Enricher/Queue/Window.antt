-- ===== src/Enricher/Queue/Window.antt =====
-- The entries of a ring from one index on, and what moving them into a new array keeps.
use native.Mathlib.Nat.{mod-add-mod, mod-eq_of_lt, mod-eq-sub-mod, add-zero}
use native.Mathlib.Decide.{dec_lt}
use incus_compose.Prelude.{
  ℕ, zero, suc, ◌+◌, ◌-◌, ◌%◌, ◌≤◌, ◌<◌, ◌≡◌, refl, ap, ap₂, sym, ◌∙◌, ◌≢◌, List, [], ◌∷◌, ◌++◌,
  arith, length, get_or, set, take, drop, get_or-set_self, get_or-set_ne,
}
use incus_compose.Enricher.Queue.{copy}

module _ {ℓ} {A : Type ℓ} where
  -- `copy` overwrites the front of what it copies into.
  pub copy-eq-append :
      (dst src : List A) → length src ≤ length dst → copy dst src ≡ src ++ drop (length src) dst
  unfolding copy
  copy-eq-append [] [] h = refl
  copy-eq-append [] (s ∷ src) h = absurd (omega arith)
  copy-eq-append (d ∷ dst) [] h = refl
  copy-eq-append (d ∷ dst) (s ∷ src) h = ap (λ r. s ∷ r) (copy-eq-append dst src (omega arith))

  pub length-copy : (dst src : List A) → length (copy dst src) ≡ length dst
  unfolding copy
  length-copy [] src = refl
  length-copy (d ∷ dst) [] = refl
  length-copy (d ∷ dst) (s ∷ src) = ap suc (length-copy dst src)

  pub take-append : (n : ℕ) (xs ys : List A) → n ≡ length xs → take n (xs ++ ys) ≡ xs
  take-append zero [] ys h = refl
  take-append zero (x ∷ xs) ys h = absurd (omega arith)
  take-append (suc n) [] ys h = absurd (omega arith)
  take-append (suc n) (x ∷ xs) ys h = ap (λ r. x ∷ r) (take-append n xs ys (omega arith))

  pub drop-append : (n : ℕ) (xs ys : List A) → n ≡ length xs → drop n (xs ++ ys) ≡ ys
  drop-append zero [] ys h = refl
  drop-append zero (x ∷ xs) ys h = absurd (omega arith)
  drop-append (suc n) [] ys h = absurd (omega arith)
  drop-append (suc n) (x ∷ xs) ys h = drop-append n xs ys (omega arith)

  pub drop-cons :
      (i : ℕ) (xs : List A) (d : A) → i < length xs → drop i xs ≡ get_or xs i d ∷ drop (suc i) xs
  drop-cons i [] d h = absurd (omega arith)
  drop-cons zero (x ∷ xs) d h = refl
  drop-cons (suc i) (x ∷ xs) d h = drop-cons i xs d (omega arith)

  pub drop_all : (n : ℕ) (xs : List A) → length xs ≤ n → drop n xs ≡ []
  drop_all zero [] h = refl
  drop_all zero (x ∷ xs) h = absurd (omega arith)
  drop_all (suc n) [] h = refl
  drop_all (suc n) (x ∷ xs) h = drop_all n xs (omega arith)

module _ {ℓ} {A : Type ℓ} (d : A) where
  -- the `n` entries from index `h` on, going round at `cap`
  abbrev pub window : List A → ℕ → ℕ → ℕ → List A
  window buf cap h zero = []
  window buf cap h (suc n) = get_or buf h d ∷ window buf cap ((h + 1) % cap) n

  pub length-window : (buf : List A) (cap h n : ℕ) → length (window buf cap h n) ≡ n
  length-window buf cap h zero = refl
  length-window buf cap h (suc n) = ap suc (length-window buf cap ((h + 1) % cap) n)

  step-eq : (cap' h : ℕ) → suc h < cap' → (h + 1) % cap' ≡ suc h
  step-eq cap' h lt = mod-eq_of_lt {n = h + 1} {m = cap'} (omega arith) ∙ omega arith

  step-wrap : (cap' h : ℕ) → h + 1 ≡ cap' → (h + 1) % cap' ≡ 0
  step-wrap cap' h e = rw e (
      omega (
        arith,
        mod-eq-sub-mod {n = cap'} {m = cap'} (omega arith),
        mod-eq_of_lt {n = cap' - cap'} {m = cap'} (omega arith),
      ))

  -- Without a wrap a window is a slice.
  pub window-eq-slice :
      (buf : List A) (cap' h n : ℕ)
      → cap' ≡ length buf
      → h + n ≤ cap'
      → window buf cap' h n ≡ take n (drop h buf)
  window-eq-slice buf cap' h zero e hn = refl
  window-eq-slice buf cap' h (suc zero) e hn = rw (drop-cons h buf d (omega arith))
  window-eq-slice buf cap' h (suc (suc n)) e hn =
      ap (λ k. get_or buf h d ∷ window buf cap' k (suc n)) (step-eq cap' h (omega arith))
      ∙ ap (λ r. get_or buf h d ∷ r) (window-eq-slice buf cap' (suc h) (suc n) e (omega arith))
      ∙ sym (ap (take (suc (suc n))) (drop-cons h buf d (omega arith)))

  -- A window that reaches the end goes on at the start.
  pub window-eq-wrap :
      (buf : List A) (cap' h k n m : ℕ)
      → cap' ≡ length buf
      → h + suc k ≡ cap'
      → n ≤ cap'
      → m ≡ suc k + n
      → window buf cap' h m ≡ drop h buf ++ take n buf
  window-eq-wrap buf cap' h k n zero e hk hn hm = absurd (omega arith)
  window-eq-wrap buf cap' h zero n (suc m) e hk hn hm =
      ap (λ j. get_or buf h d ∷ window buf cap' j m) (step-wrap cap' h hk)
      ∙ ap (λ r. get_or buf h d ∷ r) (window-eq-slice buf cap' 0 m e (omega arith))
      ∙ ap (λ j. get_or buf h d ∷ take j buf) same
      ∙ sym (
          ap (λ r. r ++ take n buf)
            (drop-cons h buf d (omega arith)
              ∙ ap (λ r. get_or buf h d ∷ r) (drop_all (suc h) buf (omega arith))))
    where
      same : m ≡ n
      same = omega arith
  window-eq-wrap buf cap' h (suc k) n (suc m) e hk hn hm =
      ap (λ j. get_or buf h d ∷ window buf cap' j m) (step-eq cap' h (omega arith))
      ∙ ap (λ r. get_or buf h d ∷ r)
          (window-eq-wrap buf cap' (suc h) k n m e (omega arith) hn (omega arith))
      ∙ sym (ap (λ r. r ++ take n buf) (drop-cons h buf d (omega arith)))

  -- Fewer than `cap'` steps round the ring do not come back to the start.
  add-mod-ne : {cap' h k : ℕ} → h < cap' → suc k < cap' → (h + suc k) % cap' ≢ h
  add-mod-ne {cap'} {h} {k} hh hk = elim (dec_lt (h + suc k) cap') [
    | yes p ↦ omega (arith, mod-eq_of_lt p)
    | no p ↦ omega (
      arith,
      mod-eq-sub-mod {n = h + suc k} {m = cap'} (omega arith),
      mod-eq_of_lt {n = h + suc k - cap'} {m = cap'} (omega arith),
    )
  ]

  -- Writing just past a window extends it by that entry.
  pub window-set :
      (buf : List A) (cap' : ℕ) (x : A) (n h i : ℕ)
      → cap' ≡ length buf
      → h < cap'
      → n < cap'
      → i ≡ (h + n) % cap'
      → window (set buf i x) cap' h (suc n) ≡ window buf cap' h n ++ x ∷ []
  window-set buf cap' x zero h i hs hh hn e =
      ap (λ r. r ∷ [])
        (ap (λ j. get_or (set buf j x) h d) (e ∙ rw add-zero (mod-eq_of_lt hh))
          ∙ get_or-set_self buf h x d (omega arith))
  window-set buf cap' x (suc n) h i hs hh hn e =
      ap₂ ◌∷◌ (get_or-set_ne buf x d (rw e (add-mod-ne hh hn)))
        (window-set buf cap' x n ((h + 1) % cap') i hs (omega arith) (omega arith) (e ∙ shift))
    where
      shift : (h + suc n) % cap' ≡ ((h + 1) % cap' + n) % cap'
      shift = rw mod-add-mod (ap (λ k. k % cap') (omega arith))

  -- Overwriting an entry that the window has passed leaves the window alone.
  pub window-set_passed :
      (buf : List A) (cap' : ℕ) (x : A) (n h k : ℕ)
      → h < cap'
      → k + n < cap'
      → window (set buf h x) cap' ((h + suc k) % cap') n ≡ window buf cap' ((h + suc k) % cap') n
  window-set_passed buf cap' x zero h k hh hk = refl
  window-set_passed buf cap' x (suc n) h k hh hk =
      ap₂ ◌∷◌ (get_or-set_ne buf x d (λ e. add-mod-ne hh (omega arith) (sym e))) (
        ap (λ j. window (set buf h x) cap' j n) shift
        ∙ window-set_passed buf cap' x n h (suc k) hh (omega arith)
        ∙ sym (ap (λ j. window buf cap' j n) shift))
    where
      shift : ((h + suc k) % cap' + 1) % cap' ≡ (h + suc (suc k)) % cap'
      shift = rw mod-add-mod (ap (λ j. j % cap') (omega arith))
