-- ===== src/Debounce/Tests.antt =====
-- The debounce's theorems at concrete events.
use incus_compose.Prelude.{ℕ, ◌≡◌, true, none, some, String, List, [], ◌∷◌, ◌++◌, refl}
use incus_compose.Prelude.Dict.{lookup}
use incus_compose.Debounce.{Event, Setup, Plugin, accept, finish}
use incus_compose.Debounce.Stream.{stream, line, IsFiled}
use incus_compose.Debounce.Accepting.{events, accept-line, finish-stream}

abbrev started : String → ℕ → Event
started name id = record {
  id = id;
  name = name;
  project = "shop";
  action = "instance-started";
  warm = true;
  err = none;
}

abbrev quiet : Setup
quiet = record { window = 250; debounced = λ _. true }

-- A window for each of two instances, one of which has been followed by another event.
abbrev busy : Plugin
busy = record {
  windows =
      ("shop/web", record { ev = some (started "web" 2); at = 350 })
      ∷ ("shop/db", record { ev = none; at = 300 })
      ∷ [];
  out = started "web" 1 ∷ started "db" 7 ∷ [];
}

accept-line_example :
    (line "shop/web" (accept quiet 200 (started "web" 3) busy)
      ≡ line "shop/web" busy ++ stream "shop/web" (started "web" 3 ∷ []))
    × IsFiled (accept quiet 200 (started "web" 3) busy)
accept-line_example = accept-line "shop/web" quiet 200 (started "web" 3) busy (refl, (tt, tt))

abbrev late : List (ℕ × Event)
late = (200, started "web" 3) ∷ (210, started "db" 8) ∷ []

finish-stream_example :
    (stream "shop/web" (finish quiet late busy).out
      ≡ line "shop/web" busy ++ stream "shop/web" (events late))
    × (lookup "shop/web" (finish quiet late busy).windows ≡ none)
finish-stream_example = finish-stream "shop/web" quiet late busy (refl, (tt, tt))
