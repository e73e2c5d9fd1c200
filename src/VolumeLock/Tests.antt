-- ===== src/VolumeLock/Tests.antt =====
-- The theorems on the volume lock at concrete holders.
use incus_compose.Prelude.{ℕ, suc, ◌≡◌, refl, none, some, arith}
use incus_compose.VolumeLock.{
  outside, held, System, moved_to, created, written, lock, create, write, creating, writing, Reach,
  here, next, unlocked_volume,
}
use incus_compose.VolumeLock.Exclusion.{held-exclusive}
use incus_compose.VolumeLock.Takeover.{reapers-both_held}

abbrev holder_4 : System
holder_4 = moved_to 4 held (some (record { creator = 4; owner = some 4; stamp = 0 })) (
    moved_to 4 writing (some (record { creator = 4; owner = none; stamp = 0 }))
      (moved_to 4 creating none unlocked_volume))

held-exclusive_example : ◌≡◌ {A = ℕ} 4 4
unfolding moved_to created written
held-exclusive_example =
    held-exclusive holder_4 4 4
      (next (next (next here (lock 4 refl)) (create 4 refl)) (write 4 refl)) refl refl

reapers-both_held_example :
    (s : System) × (t : System) × Reach 30 unlocked_volume s
    × Reach 30 s t
    × (s.clock ≡ t.clock)
    × (s.phase 0 ≡ held)
    × ((i : ℕ) → s.phase (suc i) ≡ outside)
    × (t.phase 0 ≡ held)
    × (t.phase 1 ≡ held)
    × (t.phase 2 ≡ held)
reapers-both_held_example = reapers-both_held 30 (omega arith)
