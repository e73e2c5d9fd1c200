-- ===== src/Enricher/Retries/Tests.antt =====
-- The theorems on the schedule of reads at a schedule of two keys.
use incus_compose.Prelude.{◌≡◌, refl, true, String, some, [], ◌∷◌, arith}
use incus_compose.Enricher.Retries.{Subject, Retries, take_all, schedule_at}
use incus_compose.Enricher.Retries.Timed.{
  IsTimed, fallen, to_come, schedule_at-IsTimed, take_all-IsTimed,
}

abbrev subject : String → Subject
subject name = record { project = "shop"; instance_name = name }

abbrev two_due : Retries
two_due = record {
  due =
      record { subject = subject "web"; at = 5000000000 }
      ∷ record { subject = subject "db"; at = 9000000000 }
      ∷ [];
  tries = ("instance/shop/web", 3) ∷ [];
  timer = some 5000000000;
}

schedule_at-IsTimed_example : IsTimed (schedule_at 2000000000 1000000000 (subject "db") two_due)
schedule_at-IsTimed_example =
    schedule_at-IsTimed 2000000000 1000000000 (subject "db") two_due
      (((omega arith, tt), (tt, tt)), refl)

take_all-IsTimed_example :
    ((take_all (λ _. true) 6000000000 two_due).0 ≡ fallen 6000000000 two_due.due)
    × ((take_all (λ _. true) 6000000000 two_due).1.due ≡ to_come 6000000000 two_due.due)
    × IsTimed (take_all (λ _. true) 6000000000 two_due).1
take_all-IsTimed_example = take_all-IsTimed 6000000000 two_due ((omega arith, tt), (tt, tt))
