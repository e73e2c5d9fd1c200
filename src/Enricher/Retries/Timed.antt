-- ===== src/Enricher/Retries/Timed.antt =====
-- The schedule of ievent/enricher/retries.go stays in order, with its timer set for the head.
use incus_compose.Prelude.{
  ℕ, zero, suc, ◌+◌, ◌-◌, ◌≤◌, ◌<◌, ◌≡◌, refl, ap, ap₂, sym, ◌∙◌, subst, Bool, true, Option, some,
  List, [], ◌∷◌, ltb, leb, ltb→lt, leb→le, ◌==◌, arith, Bool-cases, inl, inr, All, All-mono,
  if◌then◌else◌, if_both, if_split, length, lt→ltb,
}
use incus_compose.Enricher.Retries.{
  Subject, Retry, Retries, take_due, rearmed, take_all, place, insert_at, schedule_at, soon,
}

abbrev pub NoneBefore : ℕ → List Retry → Type 0
NoneBefore t due = All (λ r. t ≤ r.at) due

abbrev pub IsSorted : List Retry → Type 0
IsSorted [] = Unit
IsSorted (x ∷ due) = NoneBefore x.at due × IsSorted due

abbrev pub IsArmed : List Retry → Option ℕ → Type 0
IsArmed [] timer = Unit
IsArmed (x ∷ due) timer = timer ≡ some x.at

-- The keys are due in order, and the timer fires when the first is.
abbrev pub IsTimed : Retries → Type 0
IsTimed r = IsSorted r.due × IsArmed r.due r.timer

-- Where the place is, all before it are due no later; where it is the front, all are due later.
place-zero : (at : ℕ) (due : List Retry) → place at due ≡ 0 → All (λ r. at < r.at) due
unfolding place
place-zero at [] e = tt
place-zero at (x ∷ due) e = elim (Bool-cases (leb x.at at)) [
  | inl early ↦ absurd (ground (arith, early, e))
  | inr late ↦
      let front : place at due ≡ 0 = ground (arith, e) in
      (ground (arith, late), place-zero at due front)
]

place-suc : (at n m : ℕ) (due : List Retry) → place at due ≡ suc n → NoneBefore m due → m ≤ at
unfolding place
place-suc at n m [] e h = absurd (omega (arith, e))
place-suc at n m (x ∷ due) e h = elim (Bool-cases (ltb 0 (place at due))) [
  | inl later ↦
      let deeper : place at due ≡ suc (place at due - 1) = ground (arith, later) in
      place-suc at (place at due - 1) m due deeper h.1
  | inr front ↦ ground (arith, e, front, h.0)
]

NoneBefore-insert_at :
    (t i : ℕ) (x : Retry) (due : List Retry)
    → t ≤ x.at
    → NoneBefore t due
    → NoneBefore t (insert_at due i x)
NoneBefore-insert_at t zero x due hx h = (hx, h)
NoneBefore-insert_at t (suc i) x [] hx h = (hx, tt)
NoneBefore-insert_at t (suc i) x (y ∷ due) hx h = (h.0, NoneBefore-insert_at t i x due hx h.1)

-- Inserting where the place is.
IsSorted-insert_at :
    (x : Retry) (due : List Retry) → IsSorted due → IsSorted (insert_at due (place x.at due) x)
unfolding place
IsSorted-insert_at x [] h = (tt, tt)
IsSorted-insert_at x (y ∷ due) h =
    if_split (λ (i : ℕ). IsSorted (insert_at (y ∷ due) i x)) (ltb 0 (place x.at due)) _ _
      (λ later.
        let deeper : place x.at due ≡ suc (place x.at due - 1) = ground (arith, later) in
        let behind = place-suc x.at (place x.at due - 1) y.at due deeper h.0 in
        (NoneBefore-insert_at y.at (place x.at due) x due behind h.0, IsSorted-insert_at x due h.1))
      (λ front.
        let after = place-zero x.at due (ground (arith, front)) in
        let all_after = All-mono (λ r hr. omega (arith, hr)) due after in
        if_split (λ (i : ℕ). IsSorted (insert_at (y ∷ due) i x)) (leb y.at x.at) 1 0
          (λ early. ((leb→le y.at x.at early, h.0), (all_after, h.1)))
          (λ late.
            let before : x.at ≤ y.at = ground (arith, late) in
            ((before, All-mono (λ r hr. omega (arith, hr, before)) due h.0), h)))

place-le : (at : ℕ) (due : List Retry) → place at due ≤ length due
unfolding place
place-le at [] = omega arith
place-le at (x ∷ due) = ground (arith, place-le at due)

IsArmed-insert_at :
    (i : ℕ) (x : Retry) (due : List Retry) (timer : Option ℕ)
    → i ≤ length due
    → IsArmed due timer
    → IsArmed (insert_at due i x) (if i == 0 then some x.at else timer)
IsArmed-insert_at zero x due timer hi h = refl
IsArmed-insert_at (suc i) x [] timer hi h = absurd (omega arith)
IsArmed-insert_at (suc i) x (y ∷ due) timer hi h = ground (arith, h)

-- Whatever is scheduled, a schedule that is in order with its timer set for the key due first stays
-- so.
pub schedule_at-IsTimed :
    (now d : ℕ) (s : Subject) (r : Retries) → IsTimed r → IsTimed (schedule_at now d s r)
unfolding schedule_at
schedule_at-IsTimed now d s r h =
    let x : Retry = record { subject = s; at = now + d } in
    (
      IsSorted-insert_at x r.due h.0,
      IsArmed-insert_at (place x.at r.due) x r.due r.timer (place-le x.at r.due) h.1,
    )

pub soon-IsTimed : (now : ℕ) (s : Subject) (r : Retries) → IsTimed r → IsTimed (soon now s r)
unfolding soon
soon-IsTimed now s r h = schedule_at-IsTimed now _ s _ h

-- The keys that are due by `now`, and the rest.
abbrev pub fallen : ℕ → List Retry → List Subject
fallen now [] = []
fallen now (x ∷ due) = if ltb now x.at then fallen now due else x.subject ∷ fallen now due

abbrev pub to_come : ℕ → List Retry → List Retry
to_come now [] = []
to_come now (x ∷ due) = if ltb now x.at then x ∷ to_come now due else to_come now due

fallen-none : (now : ℕ) (due : List Retry) → All (λ r. now < r.at) due → fallen now due ≡ []
fallen-none now [] h = refl
fallen-none now (x ∷ due) h =
    ap (λ b. if b then fallen now due else x.subject ∷ fallen now due) (lt→ltb now x.at h.0)
    ∙ fallen-none now due h.1

to_come-All : (now : ℕ) (due : List Retry) → All (λ r. now < r.at) due → to_come now due ≡ due
to_come-All now [] h = refl
to_come-All now (x ∷ due) h =
    ap (λ b. if b then x ∷ to_come now due else to_come now due) (lt→ltb now x.at h.0)
    ∙ ap (λ l. x ∷ l) (to_come-All now due h.1)

take_due-fallen :
    (now : ℕ) (due : List Retry)
    → IsSorted due
    → take_due (λ _. true) now due ≡ (fallen now due, to_come now due, true)
unfolding take_due
take_due-fallen now [] h = refl
take_due-fallen now (x ∷ due) h =
    let Taken = List Subject × List Retry × Bool in
    let rest = take_due (λ _. true) now due in
    let by_test : Bool → Taken =
      λ b. if b then ([], x ∷ due, true) else (x.subject ∷ rest.0, rest.1, rest.2) in
    let split : Bool → Taken = λ b. (
      if b then fallen now due else x.subject ∷ fallen now due,
      if b then x ∷ to_come now due else to_come now due,
      true,
    ) in
    elim (Bool-cases (ltb now x.at)) [
      | inl later ↦
          let x_later = ltb→lt now x.at later in
          let rest_later = All-mono (λ r hr. omega (arith, hr, x_later)) due h.0 in
          let none_fallen = fallen-none now due rest_later in
          let all_to_come = to_come-All now due rest_later in
          let whole : Taken = ([], x ∷ due, true) in
          ap by_test later
          ∙ ap₂ (λ (a : List Subject) (b : List Retry). (a, x ∷ b, true)) (sym none_fallen)
              (sym all_to_come)
          ∙ ap split (sym later)
      | inr early ↦
          ap by_test early
          ∙ ap (λ (t : Taken). (x.subject ∷ t.0, t.1, t.2)) (take_due-fallen now due h.1)
          ∙ ap split (sym early)
    ]

NoneBefore-to_come :
    (t now : ℕ) (due : List Retry) → NoneBefore t due → NoneBefore t (to_come now due)
NoneBefore-to_come t now [] h = tt
NoneBefore-to_come t now (x ∷ due) h =
    if_both (NoneBefore t) (ltb now x.at) (x ∷ to_come now due) (to_come now due)
      (h.0, NoneBefore-to_come t now due h.1) (NoneBefore-to_come t now due h.1)

to_come-IsSorted : (now : ℕ) (due : List Retry) → IsSorted due → IsSorted (to_come now due)
to_come-IsSorted now [] h = tt
to_come-IsSorted now (x ∷ due) h =
    if_both IsSorted (ltb now x.at) (x ∷ to_come now due) (to_come now due)
      (NoneBefore-to_come x.at now due h.0, to_come-IsSorted now due h.1)
      (to_come-IsSorted now due h.1)

to_come-later : (now : ℕ) (due : List Retry) → All (λ r. now < r.at) (to_come now due)
to_come-later now [] = tt
to_come-later now (x ∷ due) =
    if_split (All (λ r. now < r.at)) (ltb now x.at) (x ∷ to_come now due) (to_come now due)
      (λ later. (ltb→lt now x.at later, to_come-later now due)) (λ _. to_come-later now due)

IsArmed-rearmed :
    (now : ℕ) (due : List Retry) (timer : Option ℕ)
    → All (λ r. now < r.at) due
    → IsArmed due (rearmed now due timer)
IsArmed-rearmed now [] timer h = tt
IsArmed-rearmed now (x ∷ due) timer h =
    let whole : now + (x.at - now) ≡ x.at = omega (arith, h.0) in ap some whole

-- When the schedule is in order, a take that is read to its end yields exactly the keys due by now,
-- oldest first, keeps exactly the others, and leaves the timer set for the first of these.
pub take_all-IsTimed :
    (now : ℕ) (r : Retries)
    → IsSorted r.due
    → ((take_all (λ _. true) now r).0 ≡ fallen now r.due)
      × ((take_all (λ _. true) now r).1.due ≡ to_come now r.due)
      × IsTimed (take_all (λ _. true) now r).1
unfolding take_all
take_all-IsTimed now r h =
    subst (λ t. (t.0 ≡ fallen now r.due) × (t.1.due ≡ to_come now r.due) × IsTimed t.1)
      (sym (ap by_taken (take_due-fallen now r.due h)))
      (
        refl,
        refl,
        (
          to_come-IsSorted now r.due h,
          IsArmed-rearmed now (to_come now r.due) r.timer (to_come-later now r.due),
        ),
      )
  where
    by_taken : List Subject × List Retry × Bool → List Subject × Retries
    by_taken t =
        if t.2
        then (t.0, record r { due = t.1; timer = rearmed now t.1 r.timer })
        else (t.0, record r { due = t.1 })
