-- ===== src/Debounce.antt =====
-- The plugin of ievent/debounce/debounce.go: a window for each key, and the event that will close
-- it. `out` is what has been handed to the next plugin. The configuration of the plugin is `Setup`;
-- the channels of Run are the calls of `accept`, `close_expired` and `finish`.
pub mod Stream
pub mod Closing
pub mod Accepting
mod Tests
use Prim.Native.String.{◌++◌ as str_append}
use incus_compose.Prelude.{
  ℕ, ◌+◌, Bool, true, false, not, ◌&&◌, Option, none, some, String, List, [], ◌∷◌, ◌++◌, ltb,
  if◌then◌else◌, str_eq,
}
use incus_compose.Prelude.Dict.{Dict, lookup, insert, delete}

-- What the plugin reads of an event; `id` is the rest of it. `err` names who dropped it, or is any
-- other failure.
pub record Event : Type 0 where
  pub id : ℕ
  pub name : String
  pub project : String
  pub action : String
  pub warm : Bool
  pub err : Option String

-- `WithDropped`: a no-op once the event is dropped or failed.
pub with_dropped : String → Event → Event
with_dropped by ev = elim ev.err [ none ↦ record ev { err = some by } | some e ↦ ev ]

-- One key's open window; `ev` is nil while nothing has followed the leading edge.
pub record Burst : Type 0 where
  pub ev : Option Event
  pub at : ℕ

pub record Setup : Type 0 where
  pub window : ℕ
  pub debounced : String → Bool

pub record Plugin : Type 0 where
  pub windows : Dict Burst
  pub out : List Event

abbrev pub key : Event → String
key ev = str_append ev.project (str_append "/" ev.name)

abbrev pub is_none {ℓ} : {A : Type ℓ} → Option A → Bool
is_none none = true
is_none (some a) = false

pub emit : Event → Plugin → Plugin
emit ev p = record p { out = p.out ++ ev ∷ [] }

-- The trailing event goes, if there is one.
pub emit_trailing : Option Event → Plugin → Plugin
emit_trailing none p = p
emit_trailing (some ev) p = emit ev p

pub close : String → Plugin → Plugin
close k p = elim (lookup k p.windows) [
  | none ↦ p
  | some b ↦ emit_trailing b.ev (record p { windows = delete k p.windows })
]

pub emit_superseded : Option Event → Plugin → Plugin
emit_superseded none p = p
emit_superseded (some ev) p = emit (with_dropped "debounce" ev) p

-- An event inside an open window supersedes the one held before it.
pub supersede : ℕ → Event → Burst → Plugin → Plugin
supersede at ev b p =
    let told = emit_superseded b.ev p in
    record told { windows = insert (key ev) (record { ev = some ev; at = at }) told.windows }

pub collapse : Setup → Event → Bool
collapse s ev = is_none ev.err && ev.warm && s.debounced ev.action

pub in_window : Setup → ℕ → Event → Plugin → Plugin
in_window s now ev p = elim (lookup (key ev) p.windows) [
  | none ↦
      let told = emit ev p in
      record told {
        windows = insert (key ev) (record { ev = none; at = now + s.window }) told.windows;
      }
  | some b ↦ supersede (now + s.window) ev b p
]

pub accept : Setup → ℕ → Event → Plugin → Plugin
accept s now ev p =
    if str_eq ev.name ""
    then emit ev p
    else if not (collapse s ev)
    then emit ev (close (key ev) p)
    else in_window s now ev p

-- The range over the map: the entries as it finds them, each closed if its deadline has passed.
pub close_due : ℕ → Dict Burst → Plugin → Plugin
close_due now [] p = p
close_due now ((k, b) ∷ rest) p = close_due now rest (if ltb now b.at then p else close k p)

pub close_expired : ℕ → Plugin → Plugin
close_expired now p = close_due now p.windows p

pub close_each : Dict Burst → Plugin → Plugin
close_each [] p = p
close_each ((k, b) ∷ rest) p = close_each rest (close k p)

pub close_all : Plugin → Plugin
close_all p = close_each p.windows p

-- Everything on the inbox, each event with the time at which it is taken off.
pub drain : Setup → List (ℕ × Event) → Plugin → Plugin
drain s [] p = p
drain s ((now, ev) ∷ inbox) p = drain s inbox (accept s now ev p)

-- The command to finish: drain first, so that what still arrives supersedes, then close.
pub finish : Setup → List (ℕ × Event) → Plugin → Plugin
finish s inbox p = close_all (drain s inbox p)

-- The nearest deadline open; `none` is the zero time.
pub earliest : Dict Burst → Option ℕ
earliest [] = none
earliest ((k, b) ∷ rest) = elim (earliest rest) [
  | none ↦ some b.at
  | some e ↦ if ltb b.at e then some b.at else some e
]
