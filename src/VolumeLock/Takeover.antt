-- ===== src/VolumeLock/Takeover.antt =====
-- Two holders that take over one lock at a time (client/resource_storage_volume_lock.go, stale above 0).
use incus_compose.Prelude.{
  ℕ, suc, true, ◌==◌, ◌-◌, ◌<◌, ◌≡◌, refl, Option, none, some, lt→ltb, arith, ap, subst,
  if◌then◌else◌,
}
use incus_compose.VolumeLock.{
  File, Phase, outside, creating, judging, weighing, reaping, writing, held, System, moved_to,
  created, told, weighed, written, tick, lock, create, judge, weigh, reap, write, Reach, here, next,
  unlocked_volume,
}

abbrev left_by : ℕ → Option ℕ → ℕ → Option File
left_by i owner stamp = some (record { creator = i; owner = owner; stamp = stamp })

-- The file that holder 0 wrote at time 0.
abbrev old_file : Option File
old_file = left_by 0 (some 0) 0

-- A holder that fails to create, reads the old file and finds it stale.
abbrev found_stale : ℕ → System → System
found_stale i s = moved_to i reaping old_file (
    moved_to i (weighing 0) old_file (moved_to i judging old_file (moved_to i creating old_file s)))

-- One that removes whatever is at the path, creates its own file there and writes it.
abbrev took_over : ℕ → System → System
took_over i s =
    moved_to i held (left_by i (some i) s.clock)
      (moved_to i writing (left_by i none s.clock) (moved_to i creating none s))

-- Holder 0 takes the lock at time 0 and is not heard of again.
abbrev first_held : System
first_held =
    moved_to 0 held old_file
      (moved_to 0 writing (left_by 0 none 0) (moved_to 0 creating none unlocked_volume))

abbrev late_by : ℕ → System
late_by stale = record first_held { clock = suc stale }

module _ (stale : ℕ) (on : 0 < stale) where
  found_stale-Reach :
      (i : ℕ) (phase : ℕ → Phase) (start : System)
      → (i == i) ≡ true
      → phase i ≡ outside
      → Reach stale start (record { file = old_file; phase = phase; clock = suc stale })
      → Reach stale start
          (found_stale i (record { file = old_file; phase = phase; clock = suc stale }))
  unfolding moved_to created told weighed
  found_stale-Reach i phase start same idle path =
      let s : System = record { file = old_file; phase = phase; clock = suc stale } in
      let stands : (p : Phase) (before : ℕ → Phase) → (if i == i then p else before i) ≡ p =
        λ p before. ap (λ b. if b then p else before i) same in
      let one = moved_to i creating old_file s in
      let two = moved_to i judging old_file one in
      let three = moved_to i (weighing 0) old_file two in
      let failed : Reach stale start two =
        subst (Reach stale start)
          (ap (λ b. moved_to i (if b then judging else creating) old_file one) (lt→ltb 0 stale on))
          (next (next path (lock i idle)) (create i (stands creating phase))) in
      let read : Reach stale start three = next failed (judge i (stands judging one.phase)) in
      subst (Reach stale start)
        (ap (λ b. moved_to i (if b then reaping else creating) old_file three)
          (lt→ltb stale (suc stale - 0) (omega arith)))
        (next read (weigh i 0 (stands (weighing 0) two.phase)))

  took_over-Reach :
      (i : ℕ) (s start : System)
      → (i == i) ≡ true
      → s.phase i ≡ reaping
      → Reach stale start s
      → Reach stale start (took_over i s)
  unfolding moved_to created written
  took_over-Reach i s start same ready path =
      let stands : (p : Phase) (before : ℕ → Phase) → (if i == i then p else before i) ≡ p =
        λ p before. ap (λ b. if b then p else before i) same in
      let one = moved_to i creating none s in
      let two = moved_to i writing (left_by i none s.clock) one in
      subst (Reach stale start)
        (ap
          (λ b.
            moved_to i held
              (some (
                if b
                then record { creator = i; owner = some i; stamp = s.clock }
                else record { creator = i; owner = none; stamp = s.clock }))
              two)
          same)
        (next (next (next path (reap i ready)) (create i (stands creating s.phase)))
          (write i (stands writing one.phase)))

  late-Reach : Reach stale unlocked_volume (late_by stale)
  unfolding moved_to created written
  late-Reach =
      next (next (next (next here (lock 0 refl)) (create 0 refl)) (write 0 refl))
        (tick (suc stale) (omega arith))

  -- For every stale time above 0 there is a run in which one holder holds a lock gone stale, all
  -- others are outside, and two of these then both come to hold it, with the first still holding,
  -- while no time passes at all.
  pub reapers-both_held :
      (s : System) × (t : System) × Reach stale unlocked_volume s
      × Reach stale s t
      × (s.clock ≡ t.clock)
      × (s.phase 0 ≡ held)
      × ((i : ℕ) → s.phase (suc i) ≡ outside)
      × (t.phase 0 ≡ held)
      × (t.phase 1 ≡ held)
      × (t.phase 2 ≡ held)
  unfolding moved_to
  reapers-both_held = (
    late_by stale,
    took_over 2 (took_over 1 (found_stale 2 (found_stale 1 (late_by stale)))),
    late-Reach,
    took_over-Reach 2 _ (late_by stale) refl refl (
        took_over-Reach 1 _ (late_by stale) refl refl (
          found_stale-Reach 2 _ (late_by stale) refl refl
            (found_stale-Reach 1 _ (late_by stale) refl refl here))),
    refl,
    refl,
    λ i. ground arith,
    refl,
    refl,
    refl,
  )
