-- ===== src/Enricher/Retries.antt =====
-- The schedule of repeated reads of ievent/enricher/retries.go. Times are nanoseconds; `timer` is
-- when the timer fires, none when it is stopped or has fired. A key is `resourceKey` of an instance.
-- `done` is `finish` here, `at` is `schedule_at` and `take` is `take_all`, whose consumer says after
-- each key whether it goes on.
pub mod Timed
mod Tests
use Prim.Native.String.{◌++◌ as str_append}
use incus_compose.Prelude.{
  ℕ, suc, ◌+◌, ◌-◌, Bool, true, false, not, Option, none, some, String, List, [], ◌∷◌, ◌++◌, ltb,
  leb, ◌==◌, if◌then◌else◌, take, drop,
}
use incus_compose.Prelude.Dict.{Dict, lookup, insert, delete}

abbrev pub retry_delay : ℕ
retry_delay = 1000000000

abbrev pub retry_tries : ℕ
retry_tries = 3

abbrev pub slow_retry_delay : ℕ
slow_retry_delay = 5000000000

pub record Subject : Type 0 where
  pub project : String
  pub instance_name : String

pub record Retry : Type 0 where
  pub subject : Subject
  pub at : ℕ

pub record Retries : Type 0 where
  pub due : List Retry
  pub tries : Dict ℕ
  pub timer : Option ℕ

abbrev pub resource_key : String → String → String → String
resource_key kind project name =
    str_append kind (str_append "/" (str_append project (str_append "/" name)))

abbrev pub key_of : Subject → String
key_of s = resource_key "ins" s.project s.instance_name

pub new_retries : Retries
new_retries = record { due = []; tries = []; timer = none }

pub finish : Subject → Retries → Retries
finish s r = record r { tries = delete (key_of s) r.tries }

pub stop : Retries → Retries
stop r = record r { timer = none }

-- The loop of take: the keys yielded, what is left, and whether the consumer went on to the end. The
-- key it stops at stays due.
pub take_due : (Subject → Bool) → ℕ → List Retry → List Subject × List Retry × Bool
take_due go_on now [] = ([], [], true)
take_due go_on now (x ∷ due) =
    let (more, left, whole) = take_due go_on now due in
    if ltb now x.at
    then ([], x ∷ due, true)
    else if go_on x.subject
    then (x.subject ∷ more, left, whole)
    else (x.subject ∷ [], x ∷ due, false)

-- The timer is reset by what is left until the head is due.
abbrev pub rearmed : ℕ → List Retry → Option ℕ → Option ℕ
rearmed now [] timer = timer
rearmed now (x ∷ due) timer = some (now + (x.at - now))

pub take_all : (Subject → Bool) → ℕ → Retries → List Subject × Retries
take_all go_on now r =
    let (taken, left, whole) = take_due go_on now r.due in
    if whole
    then (taken, record r { due = left; timer = rearmed now left r.timer })
    else (taken, record r { due = left })

-- The place for time `at`: from the end, past what is due later.
pub place : ℕ → List Retry → ℕ
place at [] = 0
place at (x ∷ due) =
    let later = place at due in if ltb 0 later then suc later else if leb x.at at then 1 else 0

-- slices.Insert.
abbrev pub insert_at : List Retry → ℕ → Retry → List Retry
insert_at due i x = take i due ++ x ∷ drop i due

pub schedule_at : ℕ → ℕ → Subject → Retries → Retries
schedule_at now d s r =
    let i = place (now + d) r.due in
    record r {
      due = insert_at r.due i (record { subject = s; at = now + d });
      timer = if i == 0 then some (now + d) else r.timer;
    }

abbrev pub spent : String → Dict ℕ → ℕ
spent k tries = elim (lookup k tries) [ none ↦ 0 | some n ↦ n ]

pub soon : ℕ → Subject → Retries → Retries
soon now s r =
    let k = key_of s in
    let delay = if leb retry_tries (spent k r.tries) then slow_retry_delay else retry_delay in
    schedule_at now delay s (record r { tries = insert k (suc (spent k r.tries)) r.tries })
