-- ===== src/Placement/Spread.antt =====
-- What `resolveServicePlacementEnv` of project/placement.go promises of its targets.
use native.Mathlib.Nat.{add-mod_right, zero-mul, mod-eq_of_lt}
use incus_compose.Prelude.{
  le_cases, inl, inr, ℕ, zero, suc, ◌+◌, ◌-◌, ◌*◌, ◌%◌, ◌≤◌, ◌<◌, ◌≡◌, refl, sym, ap, ap₂, ◌∙◌,
  none, some, String, List, [], ◌∷◌, ◌++◌, arith, str_eq, length, length-append, append_assoc,
  get_elem?, count_if-append,
}
use incus_compose.Placement.{Member}
use incus_compose.Placement.Names.{targeted}
use incus_compose.Placement.Resolve.{names_of, name_at, fill_targets}

fill_targets-at :
    (os : List Member) {i j m n : ℕ} → i ≡ j → m ≡ n → fill_targets os i m ≡ fill_targets os j n
fill_targets-at os hi hm = ap₂ (fill_targets os) hi hm

fill_targets-split :
    (os : List Member) (i m n : ℕ)
    → fill_targets os i (m + n) ≡ fill_targets os i m ++ fill_targets os (i + m) n
unfolding fill_targets
fill_targets-split os i zero n = fill_targets-at os (omega arith) (omega arith)
fill_targets-split os i (suc m) n =
    fill_targets-at os {i = i} {j = i} {m = suc m + n} {n = suc (m + n)} refl (omega arith)
    ∙ ap (λ l. name_at os (i % length os) ∷ l)
        (fill_targets-split os (suc i) m n
          ∙ ap (λ l. fill_targets os (suc i) m ++ l) (fill_targets-at os (omega arith) refl))

fill_targets-wrap :
    (os : List Member) (i n : ℕ)
    → 0 < length os
    → fill_targets os (i + length os) n ≡ fill_targets os i n
unfolding fill_targets
fill_targets-wrap os i zero h = refl
fill_targets-wrap os i (suc n) h =
    ap₂ (λ j l. name_at os j ∷ l) (add-mod_right i (length os))
      (fill_targets-at os (omega arith) refl ∙ fill_targets-wrap os (suc i) n h)

get_elem?-append :
    (before : List Member) (m : Member) (after : List Member)
    → get_elem? (before ++ m ∷ after) (length before) ≡ some m
get_elem?-append [] m after = refl
get_elem?-append (x ∷ before) m after = get_elem?-append before m after

name_at-some :
    (os : List Member) (i : ℕ) (m : Member) → get_elem? os i ≡ some m → name_at os i ≡ m.server_name
name_at-some os i m found = ap (λ o. elim o [ none ↦ "" | some m ↦ m.server_name ]) found

-- A first lap names the members in order.
fill_targets-lap :
    (before after : List Member)
    → fill_targets (before ++ after) (length before) (length after) ≡ names_of after
unfolding fill_targets
fill_targets-lap before [] = refl
fill_targets-lap before (m ∷ after) =
    let here : length before % length (before ++ m ∷ after) ≡ length before =
      mod-eq_of_lt (omega (arith, length-append before (m ∷ after))) in
    let found = ap (get_elem? (before ++ m ∷ after)) here ∙ get_elem?-append before m after in
    let rest : fill_targets (before ++ (m ∷ after)) (suc (length before)) (length after)
        ≡ names_of after =
      ap (λ l. fill_targets l (suc (length before)) (length after))
        (sym (append_assoc before (m ∷ []) after))
      ∙ fill_targets-at (before ++ m ∷ [] ++ after) (omega (arith, length-append before (m ∷ [])))
          refl
      ∙ fill_targets-lap (before ++ m ∷ []) after in
    ap₂ (λ x l. x ∷ l)
      (name_at-some (before ++ m ∷ after) (length before % length (before ++ m ∷ after)) m found)
      rest

fill_targets_lap_le :
    (name : String) (os : List Member) (n : ℕ)
    → n ≤ length os
    → targeted name (fill_targets os 0 n) ≤ targeted name (names_of os)
fill_targets_lap_le name os n h =
    let lap = fill_targets-lap [] os in
    let split : fill_targets os 0 n ++ fill_targets os (0 + n) (length os - n) ≡ names_of os =
      sym (fill_targets-split os 0 n (length os - n))
      ∙ fill_targets-at os {i = 0} {j = 0} {m = n + (length os - n)} {n = length os} refl
          (omega arith)
      ∙ lap in
    omega (
      arith,
      ap (targeted name) split,
      count_if-append (λ t. str_eq t name) (fill_targets os 0 n)
          (fill_targets os (0 + n) (length os - n)),
    )

factor_pos : (a b n : ℕ) → n ≤ a * b → 0 < n → 0 < a
factor_pos zero b n h some_of_it = absurd (omega (arith, zero-mul b))
factor_pos (suc a) b n h some_of_it = omega arith

fill_targets_long :
    (name : String) (os : List Member) (k n : ℕ)
    → targeted name (names_of os) ≤ 1
    → n ≤ length os * suc k
    → length os < n
    → (n - length os ≤ length os * k → targeted name (fill_targets os 0 (n - length os)) ≤ k)
    → targeted name (fill_targets os 0 n) ≤ suc k
fill_targets_long name os k n one h long shorter =
    let L = length os in
    let product : L * suc k ≡ L * k + L = omega arith in
    let some_left : 0 < L = factor_pos L (suc k) n h (omega arith) in
    let split : fill_targets os 0 n ≡ fill_targets os 0 L ++ fill_targets os 0 (n - L) =
      fill_targets-at os {i = 0} {j = 0} {m = n} {n = L + (n - L)} refl (omega arith)
      ∙ fill_targets-split os 0 L (n - L)
      ∙ ap (λ l. fill_targets os 0 L ++ l) (fill_targets-wrap os 0 (n - L) some_left) in
    omega (
      arith,
      ap (targeted name) split,
      count_if-append (λ t. str_eq t name) (fill_targets os 0 L) (fill_targets os 0 (n - L)),
      fill_targets_lap_le name os L (omega arith),
      shorter (omega arith),
    )

-- With `k` laps' worth of replicas, a name is targeted `k` times at most.
pub fill_targets_le :
    (name : String) (os : List Member) (k n : ℕ)
    → targeted name (names_of os) ≤ 1
    → n ≤ length os * k
    → targeted name (fill_targets os 0 n) ≤ k
unfolding fill_targets
fill_targets_le name os zero zero one h = omega arith
fill_targets_le name os zero (suc n) one h = absurd (omega arith)
fill_targets_le name os (suc k) n one h = elim (le_cases n (length os)) [
  | inl short ↦ omega (arith, fill_targets_lap_le name os n short)
  | inr long ↦
      fill_targets_long name os k n one h long (fill_targets_le name os k (n - length os) one)
]

pub length-fill_targets : (os : List Member) (i n : ℕ) → length (fill_targets os i n) ≡ n
unfolding fill_targets
length-fill_targets os i zero = refl
length-fill_targets os i (suc n) = ap suc (length-fill_targets os (suc i) n)
