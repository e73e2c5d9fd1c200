-- ===== src/Debounce/Accepting.antt =====
-- Events arriving at the debounce (ievent/debounce/debounce.go), and its finish.
use incus_compose.Prelude.{
  ℕ, ◌+◌, ◌≡◌, refl, ap, ap₂, sym, ◌∙◌, subst, true, false, not, Option, none, some, String, List,
  [], ◌∷◌, ◌++◌, append-nil, append_assoc, arith, Bool-cases, inl, inr, if◌then◌else◌, if_both,
  if_split, str_eq, str_eq_iff,
}
use incus_compose.Prelude.Dict.{lookup, insert}
use incus_compose.Prelude.Keyed.{EveryAt, EveryAt-insert, EveryAt-lookup}
use incus_compose.Debounce.{
  Event, with_dropped, Burst, Setup, Plugin, key, emit, emit_superseded, close, supersede, collapse,
  in_window, accept, close_all, drain, finish,
}
use incus_compose.Debounce.Stream.{
  files, stream, of_event, trailing, held, line, Filed, BurstFiled, IsFiled, stream-append,
  stream-with_dropped, files_same, line-emit, held-insert, held-of,
}
use incus_compose.Debounce.Closing.{
  line-close, lookup-close, close-IsFiled, line-close_each, lookup-close_all,
}

files-own : (ev : Event) → str_eq ev.name "" ≡ false → files (key ev) ev ≡ true
files-own ev named = ground (arith, named, str_eq_iff (key ev) (key ev))

files-key : (k : String) (ev : Event) → files k ev ≡ true → str_eq (key ev) k ≡ true
files-key k ev ours = ground (arith, ours)

files-unnamed : (k : String) (ev : Event) → str_eq ev.name "" ≡ true → files k ev ≡ false
files-unnamed k ev unnamed = ground (arith, unnamed)

-- What a key's line is to be once the event has been taken.
module _ (k : String) (ev : Event) (p : Plugin) where
  Joined : Plugin → Type 0
  Joined q = line k q ≡ line k p ++ stream k (ev ∷ [])

  -- One that passes on while its key has no window.
  Joined-pass :
      (q : Plugin) → line k q ≡ line k p → (files k ev ≡ true → held k q ≡ []) → Joined (emit ev q)
  unfolding Joined
  Joined-pass q same nothing = line-emit k ev q nothing ∙ ap (λ l. l ++ stream k (ev ∷ [])) same

-- The line of a key whose event comes to an open or a new window of key `j`.
module _ (k j : String) (q : Plugin) (b : Burst) where
  abbrev filed_in : Plugin
  filed_in = record q { windows = insert j b q.windows }

  line-own : str_eq j k ≡ true → line k filed_in ≡ stream k q.out ++ of_event k b.ev
  unfolding line
  line-own own =
      ap (λ h. stream k q.out ++ h)
        (held-insert k j b q ∙ ap (λ t. if t then of_event k b.ev else held k q) own)

  line-apart : str_eq j k ≡ false → line k filed_in ≡ line k q
  unfolding line
  line-apart apart =
      ap (λ h. stream k q.out ++ h)
        (held-insert k j b q ∙ ap (λ t. if t then of_event k b.ev else held k q) apart)

-- What of_event lists is what the stream of that one event is.
stream-one : (k : String) (ev : Event) → stream k (ev ∷ []) ≡ of_event k (some ev)
unfolding stream
stream-one k ev = refl

module _ (k : String) (s : Setup) (now : ℕ) (ev : Event) (p : Plugin) where
  held-shut : lookup (key ev) p.windows ≡ none → str_eq (key ev) k ≡ true → held k p ≡ []
  unfolding held
  held-shut shut own =
      ap (λ i. of_event k (trailing (lookup i p.windows))) (sym ((str_eq_iff (key ev) k).0 own))
      ∙ ap (λ o. of_event k (trailing o)) shut

  files-apart : str_eq (key ev) k ≡ false → files k ev ≡ false
  files-apart apart = elim (Bool-cases (files k ev)) [
    | inl ours ↦ let same = files-key k ev ours in cc (same, apart)
    | inr other ↦ other
  ]

  -- The leading edge.
  line-lead :
      lookup (key ev) p.windows ≡ none
      → Joined k ev p (filed_in k (key ev) (emit ev p) (record { ev = none; at = now + s.window }))
  unfolding Joined emit line
  line-lead shut = elim (Bool-cases (str_eq (key ev) k)) [
    | inl own ↦
        line-own k (key ev) (emit ev p) (record { ev = none; at = now + s.window }) own
        ∙ append-nil (stream k (p.out ++ ev ∷ []))
        ∙ stream-append k p.out (ev ∷ [])
        ∙ ap (λ l. l ++ stream k (ev ∷ []))
            (sym (ap (λ h. stream k p.out ++ h) (held-shut shut own) ∙ append-nil (stream k p.out)))
    | inr apart ↦
        line-apart k (key ev) (emit ev p) (record { ev = none; at = now + s.window }) apart
        ∙ line-emit k ev p (λ ours. let same = files-key k ev ours in cc (same, apart))
  ]

  -- An event superseding the one its window held.
  line-emit_superseded :
      (o : Option Event) → stream k (emit_superseded o p).out ≡ stream k p.out ++ of_event k o
  unfolding emit_superseded emit
  line-emit_superseded none = sym (append-nil (stream k p.out))
  line-emit_superseded (some e) =
      stream-append k p.out (with_dropped "debounce" e ∷ [])
      ∙ ap (λ l. stream k p.out ++ l) (stream-with_dropped k "debounce" e ∙ stream-one k e)

  windows-emit_superseded : (o : Option Event) → (emit_superseded o p).windows ≡ p.windows
  unfolding emit_superseded emit
  windows-emit_superseded none = refl
  windows-emit_superseded (some e) = refl

  line-superseded_apart :
      (o : Option Event)
      → Filed (key ev) o
      → str_eq (key ev) k ≡ false
      → line k (emit_superseded o p) ≡ line k p
  unfolding line held
  line-superseded_apart o filed apart =
      ap₂ (λ l m. l ++ of_event k (trailing (lookup k m)))
        (line-emit_superseded o
          ∙ ap (λ l. stream k p.out ++ l) (theirs o filed)
          ∙ append-nil (stream k p.out))
        (windows-emit_superseded o)
    where
      theirs : (o : Option Event) → Filed (key ev) o → of_event k o ≡ []
      theirs none _ = refl
      theirs (some e) filed =
          ap (λ t. if t then e.id ∷ [] else []) (files_same k (key ev) e filed ∙ apart)

  -- An event inside an open window.
  line-supersede :
      (b : Burst)
      → lookup (key ev) p.windows ≡ some b
      → Filed (key ev) b.ev
      → Joined k ev p (supersede (now + s.window) ev b p)
  unfolding Joined supersede line
  line-supersede b found filed =
      let told = emit_superseded b.ev p in
      let next : Burst = record { ev = some ev; at = now + s.window } in
      elim (Bool-cases (str_eq (key ev) k)) [
        | inl own ↦
            line-own k (key ev) told next own
            ∙ ap (λ l. l ++ of_event k (some ev))
                (line-emit_superseded b.ev
                  ∙ ap (λ h. stream k p.out ++ h) (sym (held-of k (key ev) p b found own)))
            ∙ ap (λ l. line k p ++ l) (sym (stream-one k ev))
        | inr apart ↦
            line-apart k (key ev) told next apart
            ∙ line-superseded_apart b.ev filed apart
            ∙ sym (append-nil (line k p))
            ∙ ap (λ l. line k p ++ l)
                (sym (stream-one k ev ∙ ap (λ t. if t then ev.id ∷ [] else []) (files-apart apart)))
      ]

  abbrev opened_with : Option Burst → Plugin
  opened_with none = filed_in k (key ev) (emit ev p) (record { ev = none; at = now + s.window })
  opened_with (some b) = supersede (now + s.window) ev b p

  in_window-of :
      (o : Option Burst) → lookup (key ev) p.windows ≡ o → in_window s now ev p ≡ opened_with o
  unfolding in_window
  in_window-of o e = by_window (lookup (key ev) p.windows) ∙ ap opened_with e
    where
      by_window :
          (w : Option Burst)
          → (elim w as (λ _. Plugin) [
            | none ↦ opened_with none
            | some b ↦ supersede (now + s.window) ev b p
          ])
            ≡ opened_with w
      by_window none = refl
      by_window (some b) = refl

  abbrev pub Taken : Plugin → Type 0
  Taken q = (line k q ≡ line k p ++ stream k (ev ∷ [])) × IsFiled q

  opened-Taken :
      (o : Option Burst)
      → lookup (key ev) p.windows ≡ o
      → str_eq ev.name "" ≡ false
      → IsFiled p
      → Taken (opened_with o)
  unfolding Joined emit supersede
  opened-Taken none shut named filed =
      let next : Burst = record { ev = none; at = now + s.window } in
      (line-lead shut, EveryAt-insert BurstFiled (key ev) next p.windows tt filed)
  opened-Taken (some b) found named filed =
      let next : Burst = record { ev = some ev; at = now + s.window } in
      (
        line-supersede b found (EveryAt-lookup BurstFiled (key ev) p.windows filed found),
        EveryAt-insert BurstFiled (key ev) next (emit_superseded b.ev p).windows
            (files-own ev named)
            (subst (EveryAt BurstFiled) (sym (windows-emit_superseded b.ev)) filed),
      )

  passed-Taken :
      (q : Plugin)
      → line k q ≡ line k p
      → IsFiled q
      → (files k ev ≡ true → held k q ≡ [])
      → Taken (emit ev q)
  unfolding Joined emit
  passed-Taken q same filed nothing = (Joined-pass k ev p q same nothing, filed)

  -- After a close, a key holds nothing back.
  held-close : str_eq (key ev) k ≡ true → held k (close (key ev) p) ≡ []
  unfolding held
  held-close own =
      ap (λ o. of_event k (trailing o))
        (lookup-close k (key ev) p ∙ ap (λ t. if t then none else lookup k p.windows) own)

  -- When the windows each hold an event of their own key, taking an event adds it at the end of
  -- what its key has handed on and holds back, leaves every other key as it was, and keeps each
  -- window holding an event of its own key.
  pub accept-line :
      IsFiled p
      → (line k (accept s now ev p) ≡ line k p ++ stream k (ev ∷ [])) × IsFiled (accept s now ev p)
  unfolding accept
  accept-line filed =
      if_split Taken (str_eq ev.name "") _ _
        (λ unnamed.
          passed-Taken p refl filed
            (λ ours. let other = files-unnamed k ev unnamed in cc (ours, other)))
        (λ named.
          if_both Taken (not (collapse s ev)) _ _
            (passed-Taken (close (key ev) p) (line-close k (key ev) p filed)
              (close-IsFiled (key ev) p filed) (λ ours. held-close (files-key k ev ours)))
            (subst Taken (sym (in_window-of (lookup (key ev) p.windows) refl))
              (opened-Taken (lookup (key ev) p.windows) refl named filed)))

abbrev pub events : List (ℕ × Event) → List Event
events [] = []
events ((now, ev) ∷ inbox) = ev ∷ events inbox

line-drain :
    (k : String) (s : Setup) (inbox : List (ℕ × Event)) (p : Plugin)
    → IsFiled p
    → (line k (drain s inbox p) ≡ line k p ++ stream k (events inbox)) × IsFiled (drain s inbox p)
unfolding drain stream
line-drain k s [] p filed = (sym (append-nil (line k p)), filed)
line-drain k s ((now, ev) ∷ inbox) p filed =
    let first = accept-line k s now ev p filed in
    let rest = line-drain k s inbox (accept s now ev p) first.1 in
    (
      rest.0
          ∙ ap (λ l. l ++ stream k (events inbox)) first.0
          ∙ append_assoc (line k p) (stream k (ev ∷ [])) (stream k (events inbox))
          ∙ ap (λ l. line k p ++ l) (sym (stream-append k (ev ∷ []) (events inbox))),
      rest.1,
    )

line-shut : (k : String) (p : Plugin) → lookup k p.windows ≡ none → stream k p.out ≡ line k p
unfolding line held
line-shut k p shut =
    sym (append-nil (stream k p.out))
    ∙ ap (λ o. stream k p.out ++ of_event k (trailing o)) (sym shut)

line-close_all : (k : String) (p : Plugin) → IsFiled p → line k (close_all p) ≡ line k p
unfolding close_all
line-close_all k p filed = line-close_each k p.windows p filed

-- When the windows each hold an event of their own key, a finish hands on, for every key, what had
-- left and was held back and then the events of the inbox of that key, each once, dropped or not,
-- in the order they came, and leaves no window of the key open.
pub finish-stream :
    (k : String) (s : Setup) (inbox : List (ℕ × Event)) (p : Plugin)
    → IsFiled p
    → (stream k (finish s inbox p).out ≡ line k p ++ stream k (events inbox))
      × (lookup k (finish s inbox p).windows ≡ none)
unfolding finish
finish-stream k s inbox p filed =
    let drained = line-drain k s inbox p filed in
    let shut = lookup-close_all k (drain s inbox p) in
    (
      line-shut k (finish s inbox p) shut
          ∙ line-close_all k (drain s inbox p) drained.1
          ∙ drained.0,
      shut,
    )
