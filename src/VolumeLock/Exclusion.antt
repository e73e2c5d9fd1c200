-- ===== src/VolumeLock/Exclusion.antt =====
-- Mutual exclusion where no lock is taken over (client/resource_storage_volume_lock.go, stale of 0).
use incus_compose.Prelude.{
  ℕ, ◌≡◌, refl, ap, sym, ◌∙◌, subst, false, Option, none, some, ◌==◌, ==_iff, arith, if◌then◌else◌,
  if_both, Bool-cases, inl, inr,
}
use incus_compose.VolumeLock.{
  File, Phase, outside, creating, judging, statting, weighing, reaping, writing, held, refreshing,
  abandoning, removing, System, moved_to, created, written, names, unlocked, Step, tick, lock,
  create, judge, judge_fails, stat, stat_fails, weigh, reap, write, write_fails, abandon, beat,
  refresh, refresh_fails, unlock, remove, cancel, reap_fails, abandon_fails, unlock_fails,
  remove_fails, Reach, here, next, unlocked_volume,
}

abbrev pub Owns : ℕ → Option File → Type 0
Owns i none = ⊥
Owns i (some f) = f.creator ≡ i

-- A holder between its create and its last remove is the creator of the file; none ever judges.
abbrev pub Fits : Phase → ℕ → Option File → Type 0
Fits outside i file = Unit
Fits creating i file = Unit
Fits judging i file = ⊥
Fits statting i file = ⊥
Fits (weighing stamp) i file = ⊥
Fits reaping i file = ⊥
Fits writing i file = Owns i file
Fits held i file = Owns i file
Fits (refreshing at) i file = ⊥
Fits abandoning i file = Owns i file
Fits removing i file = Owns i file

abbrev pub IsOwned : System → Type 0
IsOwned s = (i : ℕ) → Fits (s.phase i) i s.file

moved_to-IsOwned :
    (i : ℕ) (phase : Phase) (file : Option File) (s : System)
    → Fits phase i file
    → ((j : ℕ) → (j == i) ≡ false → Fits (s.phase j) j file)
    → IsOwned (moved_to i phase file s)
unfolding moved_to
moved_to-IsOwned i phase file s own others j = elim (Bool-cases (j == i)) [
  | inl same ↦
      subst (λ (p : Phase). Fits p j file) (sym (ap (λ b. if b then phase else s.phase j) same))
        (subst (λ k. Fits phase k file) (sym ((==_iff j i).0 same)) own)
  | inr other ↦
      subst (λ (p : Phase). Fits p j file) (sym (ap (λ b. if b then phase else s.phase j) other))
        (others j other)
]

-- Nobody else owns the file that one holder owns.
Fits-gone :
    (i j : ℕ) (phase : Phase) (file : Option File)
    → Owns i file
    → (j == i) ≡ false
    → Fits phase j file
    → Fits phase j none
Fits-gone i j outside file own other h = tt
Fits-gone i j creating file own other h = tt
Fits-gone i j judging file own other h = h
Fits-gone i j statting file own other h = h
Fits-gone i j (weighing stamp) file own other h = h
Fits-gone i j (refreshing at) file own other h = h
Fits-gone i j reaping file own other h = h
Fits-gone i j writing (some f) own other h = ground (arith, own, other, h)
Fits-gone i j held (some f) own other h = ground (arith, own, other, h)
Fits-gone i j abandoning (some f) own other h = ground (arith, own, other, h)
Fits-gone i j removing (some f) own other h = ground (arith, own, other, h)
Fits-gone i j writing none own other h = own
Fits-gone i j held none own other h = own
Fits-gone i j abandoning none own other h = own
Fits-gone i j removing none own other h = own

Fits-new : (j : ℕ) (phase : Phase) (file : Option File) → Fits phase j none → Fits phase j file
Fits-new j outside file h = tt
Fits-new j creating file h = tt
Fits-new j judging file h = absurd h
Fits-new j statting file h = absurd h
Fits-new j (weighing stamp) file h = absurd h
Fits-new j (refreshing at) file h = absurd h
Fits-new j reaping file h = absurd h
Fits-new j writing file h = absurd h
Fits-new j held file h = absurd h
Fits-new j abandoning file h = absurd h
Fits-new j removing file h = absurd h

Owns-written : (now i j : ℕ) (file : Option File) → Owns j file → Owns j (written now i file)
unfolding written
Owns-written now i j none h = h
Owns-written now i j (some f) h =
    if_both (λ (g : File). g.creator ≡ j) (f.creator == i)
      (record f { owner = some i; stamp = now }) f h h

Fits-written :
    (now i j : ℕ) (phase : Phase) (file : Option File)
    → Fits phase j file
    → Fits phase j (written now i file)
Fits-written now i j outside file h = tt
Fits-written now i j creating file h = tt
Fits-written now i j judging file h = h
Fits-written now i j statting file h = h
Fits-written now i j (weighing stamp) file h = h
Fits-written now i j (refreshing at) file h = h
Fits-written now i j reaping file h = h
Fits-written now i j writing file h = Owns-written now i j file h
Fits-written now i j held file h = Owns-written now i j file h
Fits-written now i j abandoning file h = Owns-written now i j file h
Fits-written now i j removing file h = Owns-written now i j file h

-- The steps of a holder, given what its phase says of the file.
module _ (s : System) (owned : IsOwned s) (i : ℕ) where
  fits : (phase : Phase) → s.phase i ≡ phase → Fits phase i s.file
  fits phase e = subst (λ (p : Phase). Fits p i s.file) e (owned i)

  created-IsOwned : (file : Option File) → s.file ≡ file → IsOwned (created 0 i s file)
  unfolding created
  created-IsOwned none e =
      let new : File = record { creator = i; owner = none; stamp = s.clock } in
      moved_to-IsOwned i writing (some new) s refl (λ j other.
        Fits-new j (s.phase j) (some new) (subst (λ f. Fits (s.phase j) j f) e (owned j)))
  created-IsOwned (some f) e =
      moved_to-IsOwned i creating (some f) s tt
        (λ j other. subst (λ g. Fits (s.phase j) j g) e (owned j))

  removed-IsOwned :
      (phase : Phase) → Fits phase i none → Owns i s.file → IsOwned (moved_to i phase none s)
  removed-IsOwned phase own mine =
      moved_to-IsOwned i phase none s own
        (λ j other. Fits-gone i j (s.phase j) s.file mine other (owned j))

  unlocked-Fits : (file : Option File) → Owns i file → Fits (unlocked i file) i file
  unfolding unlocked
  unlocked-Fits none mine = tt
  unlocked-Fits (some f) mine =
      if_both (λ (p : Phase). Fits p i (some f)) (names i f.owner) removing outside mine tt

Step-IsOwned : (s t : System) → Step 0 s t → IsOwned s → IsOwned t
Step-IsOwned s t (tick later e) owned = owned
Step-IsOwned s t (lock i e) owned = moved_to-IsOwned i creating s.file s tt (λ j _. owned j)
Step-IsOwned s t (create i e) owned = created-IsOwned s owned i s.file refl
Step-IsOwned s t (judge i e) owned = absurd (fits s owned i judging e)
Step-IsOwned s t (judge_fails i e) owned = absurd (fits s owned i judging e)
Step-IsOwned s t (stat i e) owned = absurd (fits s owned i statting e)
Step-IsOwned s t (stat_fails i e) owned = absurd (fits s owned i statting e)
Step-IsOwned s t (weigh i stamp e) owned = absurd (fits s owned i (weighing stamp) e)
Step-IsOwned s t (reap i e) owned = absurd (fits s owned i reaping e)
Step-IsOwned s t (write i e) owned =
    moved_to-IsOwned i held (written s.clock i s.file) s
      (Owns-written s.clock i i s.file (fits s owned i writing e))
      (λ j _. Fits-written s.clock i j (s.phase j) s.file (owned j))
Step-IsOwned s t (write_fails i e) owned =
    moved_to-IsOwned i abandoning s.file s (fits s owned i writing e) (λ j _. owned j)
Step-IsOwned s t (abandon i e) owned =
    removed-IsOwned s owned i creating tt (fits s owned i abandoning e)
Step-IsOwned s t (beat i e on) owned = absurd (ground (arith, on))
Step-IsOwned s t (refresh i at e) owned = absurd (fits s owned i (refreshing at) e)
Step-IsOwned s t (refresh_fails i at e) owned = absurd (fits s owned i (refreshing at) e)
Step-IsOwned s t (unlock i e) owned =
    moved_to-IsOwned i (unlocked i s.file) s.file s
      (unlocked-Fits s owned i s.file (fits s owned i held e)) (λ j _. owned j)
Step-IsOwned s t (remove i e) owned =
    removed-IsOwned s owned i outside tt (fits s owned i removing e)
Step-IsOwned s t (cancel i e) owned = moved_to-IsOwned i outside s.file s tt (λ j _. owned j)
Step-IsOwned s t (reap_fails i e) owned = absurd (fits s owned i reaping e)
Step-IsOwned s t (abandon_fails i e) owned =
    moved_to-IsOwned i creating s.file s tt (λ j _. owned j)
Step-IsOwned s t (unlock_fails i e) owned = moved_to-IsOwned i outside s.file s tt (λ j _. owned j)
Step-IsOwned s t (remove_fails i e) owned = moved_to-IsOwned i outside s.file s tt (λ j _. owned j)

Reach-IsOwned : (s : System) → Reach 0 unlocked_volume s → IsOwned s
Reach-IsOwned s here = λ i. tt
Reach-IsOwned s (next {s = r} path step) = Step-IsOwned r s step (Reach-IsOwned r path)

one_owner : (i j : ℕ) (file : Option File) → Owns i file → Owns j file → i ≡ j
one_owner i j none mine theirs = absurd mine
one_owner i j (some f) mine theirs = sym mine ∙ theirs

-- Where locks are never taken over, a stale of 0, no two holders hold the lock at one time, in
-- whatever order the calls of any number of holders come and whichever of them fail.
pub held-exclusive :
    (s : System) (i j : ℕ) → Reach 0 unlocked_volume s → s.phase i ≡ held → s.phase j ≡ held → i ≡ j
held-exclusive s i j path hi hj =
    let owned = Reach-IsOwned s path in
    one_owner i j s.file (fits s owned i held hi) (fits s owned j held hj)
