-- ===== src/Checker/Wake.antt =====
-- The wake-up that `runInstanceActions` (cmd/ic-healthd/checker/instance.go) arms the timer for.
use incus_compose.Prelude.{
  ℕ, ◌≤◌, ◌<◌, ◌≡◌, ◌⊎◌, inl, inr, refl, true, false, not, ◌||◌, Option, none, some, String, [],
  ◌∷◌, arith, ltb, ◌==◌, length, if_both, if_split, ltb→lt, option_split,
}
use incus_compose.Prelude.Dict.{Dict}
use incus_compose.Checker.Types.{Instance, InstanceAction, check, restart, unset}
use incus_compose.Checker.Step.{is_idle}
use incus_compose.Checker.Actions.{
  Turn, Visit, after, unchanged, deferred, reap, begin_restart, begin_check, begin, visit, sooner,
  Round, next_of, visit_all,
}
use incus_compose.Checker.Fold.{Ensures, Ensures-bind}

-- There is a wake-up, no later than `due`.
abbrev pub WakesBy : ℕ → Option ℕ → Type 0
WakesBy due none = ⊥
WakesBy due (some e) = e ≤ due

sooner_left : (due : ℕ) (a b : Option ℕ) → WakesBy due a → WakesBy due (sooner a b)
sooner_left due none b h = elim h [ ]
sooner_left due (some a) none h = h
sooner_left due (some a) (some b) h = ground arith

sooner_right : (due : ℕ) (a b : Option ℕ) → WakesBy due b → WakesBy due (sooner a b)
sooner_right due a none h = elim h [ ]
sooner_right due none (some b) h = h
sooner_right due (some a) (some b) h = ground arith

-- One instance before and after a round, found idle and left idle until a time still to come.
pub record IsWaiting (now : ℕ) (i j : Instance) : Type 0 where
  pub idle_before : is_idle i.state ≡ true
  pub idle_after : is_idle j.state ≡ true
  pub later : now < j.due

-- It is woken up in time.
abbrev pub IsWaitedFor : ℕ → Option ℕ → Instance → Instance → Type 0
IsWaitedFor now wake i j = IsWaiting now i j → WakesBy j.due wake

-- The wake-up is for it.
abbrev pub IsReason : ℕ → Instance → Instance → Option ℕ → Type 0
IsReason now i j none = Unit
IsReason now i j (some e) = IsWaiting now i j × (j.due ≡ e)

-- Two maps with the same keys, whose instances are related one by one.
abbrev pub Paired : (Instance → Instance → Type 0) → Dict Instance → Dict Instance → Type 0
Paired P [] [] = Unit
Paired P ((k, i) ∷ m) ((l, j) ∷ n) = (k ≡ l) × P i j × Paired P m n
Paired P _ _ = ⊥

-- A wake-up is for one of the instances.
abbrev pub Roused : ℕ → ℕ → Dict Instance → Dict Instance → Type 0
Roused now e ((k, i) ∷ m) ((l, j) ∷ n) = IsReason now i j (some e) ⊎ Roused now e m n
Roused now e _ _ = ⊥

abbrev pub Explained : ℕ → Dict Instance → Dict Instance → Option ℕ → Type 0
Explained now m n none = Unit
Explained now m n (some e) = Roused now e m n

abbrev pub IsEarliest : ℕ → Dict Instance → Round → Type 0
IsEarliest now m r =
    Paired (IsWaitedFor now r.earliest) m r.instances × Explained now m r.instances r.earliest

Paired-mono :
    (P Q : Instance → Instance → Type 0) (m n : Dict Instance)
    → ((i j : Instance) → P i j → Q i j)
    → Paired P m n
    → Paired Q m n
Paired-mono P Q [] [] f h = tt
Paired-mono P Q ((k, i) ∷ m) ((l, j) ∷ n) f (e, p, h) = (e, f i j p, Paired-mono P Q m n f h)
Paired-mono P Q [] (x ∷ n) f h = h
Paired-mono P Q (x ∷ m) [] f h = h

Explained-sooner :
    (now : ℕ) (k : String) (i j : Instance) (m n : Dict Instance) (a b : Option ℕ)
    → IsReason now i j a
    → Explained now m n b
    → Explained now ((k, i) ∷ m) ((k, j) ∷ n) (sooner a b)
Explained-sooner now k i j m n none none first rest = tt
Explained-sooner now k i j m n none (some b) first rest = inr rest
Explained-sooner now k i j m n (some a) none first rest = inl first
Explained-sooner now k i j m n (some a) (some b) first rest =
    if_both (Explained now ((k, i) ∷ m) ((k, j) ∷ n)) (ltb b a) (some b) (some a) (inr rest)
      (inl first)

module _ (t : Turn) where
  abbrev IsSeen : Instance → Visit → Type 0
  IsSeen i v = IsWaitedFor t.now v.wake i v.inst × IsReason t.now i v.inst v.wake

  deferred-IsSeen : (k : String) (i : Instance) → is_idle i.state ≡ true → IsSeen i (deferred t k i)
  unfolding deferred
  deferred-IsSeen k i idle = (
    λ w. omega arith,
    (record { idle_before = idle; idle_after = idle; later = omega arith }, refl),
  )

  unchanged-IsSeen : (i : Instance) → ltb t.now i.due ≡ false → IsSeen i (unchanged i)
  unfolding unchanged
  unchanged-IsSeen i due = (λ w. absurd (ground (arith, due, w.later)), tt)

  begin-IsSeen :
      (k : String) (n : ℕ) (action : InstanceAction) (i : Instance)
      → is_idle i.state ≡ true
      → ltb t.now i.due ≡ false
      → IsSeen i (begin t k n action i)
  unfolding begin begin_restart begin_check
  begin-IsSeen k n restart i idle due =
      if_both (IsSeen i) (t.free k) _ _ (λ w. absurd (ground (arith, w.idle_after)), tt)
        (deferred-IsSeen k i idle)
  begin-IsSeen k n check i idle due =
      if_both (IsSeen i) (length i.config.test == 0 || not i.config.running) _ _
        (unchanged-IsSeen i due)
        (if_both (IsSeen i) (t.free k) _ _ (λ w. absurd (ground (arith, w.idle_after)), tt)
          (deferred-IsSeen k i idle))
  begin-IsSeen k n unset i idle due = unchanged-IsSeen i due

  busy_now : (i j : Instance) → not (is_idle i.state) ≡ true → IsWaiting t.now i j → ⊥
  busy_now i j busy w = ground (arith, busy, w.idle_before)

  reap-IsSeen : (i : Instance) → not (is_idle i.state) ≡ true → Ensures (IsSeen i) (reap t.now i)
  unfolding reap
  reap-IsSeen i busy =
      option_split (Ensures (IsSeen i)) i.action_cancel _ _ (λ _. tt)
        (λ c _. (λ w. absurd (busy_now i _ busy w), tt))

  visit-IsSeen : (k : String) (n : ℕ) (i : Instance) → Ensures (IsSeen i) (visit t k n i)
  unfolding visit unchanged
  visit-IsSeen k n i =
      if_split (Ensures (IsSeen i)) (not (is_idle i.state)) _ _
        (λ busy.
          if_both (Ensures (IsSeen i)) (after t.now i.action_deadline) _ _ (reap-IsSeen i busy)
            (λ w. absurd (busy_now i i busy w), tt))
        (λ rest.
          let idle : is_idle i.state ≡ true = ground (arith, rest) in
          if_split (Ensures (IsSeen i)) (ltb t.now i.due) _ _
            (λ early. (
              λ w. omega arith,
              (record { idle_before = idle; idle_after = idle; later = ltb→lt _ _ early }, refl),
            ))
            (λ late. begin-IsSeen k n i.action i idle late))

  -- Where a round ends, it keeps every key, in order, and its wake-up is the earliest that is
  -- waited for: it comes no later than any instance that was idle and is left idle until a time
  -- still to come, and where there is one it is exactly when such an instance falls due, so that an
  -- instance in flight and its deadline never have one.
  pub visit_all-IsEarliest :
      (n : ℕ) (m : Dict Instance) → Ensures (IsEarliest t.now m) (visit_all t n m)
  unfolding visit_all
  visit_all-IsEarliest n [] = (tt, tt)
  visit_all-IsEarliest n ((k, i) ∷ rest) =
      Ensures-bind (IsSeen i) (IsEarliest t.now ((k, i) ∷ rest)) (visit t k n i) _
        (visit-IsSeen k n i)
        λ v first.
          Ensures-bind (IsEarliest t.now rest) (IsEarliest t.now ((k, i) ∷ rest))
            (visit_all t (next_of v.submitted n) rest) _
            (visit_all-IsEarliest (next_of v.submitted n) rest)
            λ r others. (
              (
                refl,
                λ waits. sooner_left v.inst.due v.wake r.earliest (first.0 waits),
                Paired-mono (IsWaitedFor t.now r.earliest)
                    (IsWaitedFor t.now (sooner v.wake r.earliest)) rest r.instances
                    (λ a b w waits. sooner_right b.due v.wake r.earliest (w waits)) others.0,
              ),
              Explained-sooner t.now k i v.inst rest r.instances v.wake r.earliest first.1 others.1,
            )
