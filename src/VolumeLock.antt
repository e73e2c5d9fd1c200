-- ===== src/VolumeLock.antt =====
-- The advisory lock of client/resource_storage_volume_lock.go: the file on the server, and the holders
-- that contend for it. A step is one call that the source makes on the server, but for the open and
-- the read of readLock, which are one, and the open, the write and the truncate of refresh; the calls
-- of the different holders come in any order. A holder is a number, which stands for its random owner
-- text. There is one clock, and a stamp is what it showed at the write, or at the beat of the ticker.
pub mod Exclusion
pub mod Takeover
mod Tests
use incus_compose.Prelude.{
  ℕ, ◌-◌, ◌≤◌, ◌≡◌, Bool, true, false, Option, none, some, ltb, ◌==◌, if◌then◌else◌,
}

-- `creator` is whose create made the file, and `owner` whom its content names, none before the first
-- write. `stamp` is the time written in it, or its modification time until then.
pub record File : Type 0 where
  pub creator : ℕ
  pub owner : Option ℕ
  pub stamp : ℕ

-- Where a holder is: before `Lock` or after `Unlock`; about to create; after a failed create, about
-- to read the file, to stat one that it could not read, and to weigh the stamp it was told; about to
-- remove a stale one; about to write into the one it created; holding the lock; holding it with a
-- beat of the ticker to write; about to remove the file that it could not write; about to remove the
-- file that names it.
pub data Phase : Type 0 where
  outside : Phase
  creating : Phase
  judging : Phase
  statting : Phase
  weighing : ℕ → Phase
  reaping : Phase
  writing : Phase
  held : Phase
  refreshing : ℕ → Phase
  abandoning : Phase
  removing : Phase

pub record System : Type 0 where
  pub file : Option File
  pub phase : ℕ → Phase
  pub clock : ℕ

pub moved_to : ℕ → Phase → Option File → System → System
moved_to i phase file s = record s { file = file; phase = λ j. if j == i then phase else s.phase j }

-- The O_EXCL create.
pub created : ℕ → ℕ → System → Option File → System
created stale i s none =
    moved_to i writing (some (record { creator = i; owner = none; stamp = s.clock })) s
created stale i s (some f) = moved_to i (if ltb 0 stale then judging else creating) (some f) s

-- `readLock`: a file that is gone, or has not been written to, has no stamp to tell.
pub told : Option File → Phase
told none = statting
told (some f) = elim f.owner [ none ↦ statting | some j ↦ weighing f.stamp ]

-- The modification time; a file that is gone is not stale.
pub statted : Option File → Phase
statted none = creating
statted (some f) = weighing f.stamp

pub weighed : ℕ → ℕ → ℕ → Phase
weighed stale clock stamp = if ltb stale (clock - stamp) then reaping else creating

-- The write goes into the file created, which may have been removed since.
pub written : ℕ → ℕ → Option File → Option File
written now i none = none
written now i (some f) =
    some (if f.creator == i then record f { owner = some i; stamp = now } else f)

-- The heartbeat opens whatever file is at the path.
pub refreshed : ℕ → ℕ → Option File → Option File
refreshed beat i none = none
refreshed beat i (some f) = some (record f { owner = some i; stamp = beat })

abbrev pub names : ℕ → Option ℕ → Bool
names i none = false
names i (some j) = j == i

-- Unlock goes on to remove the file only if it names the holder.
pub unlocked : ℕ → Option File → Phase
unlocked i none = outside
unlocked i (some f) = if names i f.owner then removing else outside

-- One call of one holder, in the phase that makes it, and the same where the server refuses it; a
-- context that ends leaves `Lock` between two attempts. Time passes between the calls.
pub data Step (stale : ℕ) (s : System) : System → Type 0 where
  tick : (later : ℕ) → s.clock ≤ later → Step stale s (record s { clock = later })
  lock : (i : ℕ) → s.phase i ≡ outside → Step stale s (moved_to i creating s.file s)
  create : (i : ℕ) → s.phase i ≡ creating → Step stale s (created stale i s s.file)
  judge : (i : ℕ) → s.phase i ≡ judging → Step stale s (moved_to i (told s.file) s.file s)
  judge_fails : (i : ℕ) → s.phase i ≡ judging → Step stale s (moved_to i statting s.file s)
  stat : (i : ℕ) → s.phase i ≡ statting → Step stale s (moved_to i (statted s.file) s.file s)
  stat_fails : (i : ℕ) → s.phase i ≡ statting → Step stale s (moved_to i creating s.file s)
  weigh :
      (i stamp : ℕ)
      → s.phase i ≡ weighing stamp
      → Step stale s (moved_to i (weighed stale s.clock stamp) s.file s)
  reap : (i : ℕ) → s.phase i ≡ reaping → Step stale s (moved_to i creating none s)
  write :
      (i : ℕ) → s.phase i ≡ writing → Step stale s (moved_to i held (written s.clock i s.file) s)
  write_fails : (i : ℕ) → s.phase i ≡ writing → Step stale s (moved_to i abandoning s.file s)
  abandon : (i : ℕ) → s.phase i ≡ abandoning → Step stale s (moved_to i creating none s)
  beat :
      (i : ℕ)
      → s.phase i ≡ held
      → ltb 0 stale ≡ true
      → Step stale s (moved_to i (refreshing s.clock) s.file s)
  refresh :
      (i at : ℕ)
      → s.phase i ≡ refreshing at
      → Step stale s (moved_to i held (refreshed at i s.file) s)
  refresh_fails : (i at : ℕ) → s.phase i ≡ refreshing at → Step stale s (moved_to i held s.file s)
  unlock : (i : ℕ) → s.phase i ≡ held → Step stale s (moved_to i (unlocked i s.file) s.file s)
  remove : (i : ℕ) → s.phase i ≡ removing → Step stale s (moved_to i outside none s)
  cancel : (i : ℕ) → s.phase i ≡ creating → Step stale s (moved_to i outside s.file s)
  reap_fails : (i : ℕ) → s.phase i ≡ reaping → Step stale s (moved_to i creating s.file s)
  abandon_fails : (i : ℕ) → s.phase i ≡ abandoning → Step stale s (moved_to i creating s.file s)
  unlock_fails : (i : ℕ) → s.phase i ≡ held → Step stale s (moved_to i outside s.file s)
  remove_fails : (i : ℕ) → s.phase i ≡ removing → Step stale s (moved_to i outside s.file s)

-- The systems that some order of calls comes to.
pub data Reach (stale : ℕ) (start : System) : System → Type 0 where
  here : Reach stale start start
  next : {s t : System} → Reach stale start s → Step stale s t → Reach stale start t

abbrev pub unlocked_volume : System
unlocked_volume = record { file = none; phase = λ _. outside; clock = 0 }
