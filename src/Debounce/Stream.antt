-- ===== src/Debounce/Stream.antt =====
-- What leaves the debounce (ievent/debounce/debounce.go) for one key, in order.
use incus_compose.Prelude.{
  ℕ, ◌≡◌, refl, ap, sym, ◌∙◌, Bool, true, false, not, ◌&&◌, Option, none, some, String, List, [],
  ◌∷◌, ◌++◌, append-nil, append_assoc, arith, Bool-cases, inl, inr, if◌then◌else◌, if_split, str_eq,
  str_eq_iff,
}
use incus_compose.Prelude.Dict.{lookup, insert, delete, lookup-insert, lookup-delete}
use incus_compose.Prelude.Keyed.{EveryAt}
use incus_compose.Debounce.{Event, with_dropped, Burst, Plugin, key, emit, emit_trailing, close}

-- The event is one of the key's: it has a name to key on.
abbrev pub files : String → Event → Bool
files k ev = not (str_eq ev.name "") && str_eq (key ev) k

-- The key's events of a list, by their identity.
unfoldable pub stream : String → List Event → List ℕ
stream k [] = []
stream k (ev ∷ evs) = if files k ev then ev.id ∷ stream k evs else stream k evs

abbrev pub of_event : String → Option Event → List ℕ
of_event k none = []
of_event k (some ev) = if files k ev then ev.id ∷ [] else []

abbrev pub trailing : Option Burst → Option Event
trailing none = none
trailing (some b) = b.ev

-- What the key's window holds back.
unfoldable pub held : String → Plugin → List ℕ
held k p = of_event k (trailing (lookup k p.windows))

-- What has left for the key, and what will leave next.
unfoldable pub line : String → Plugin → List ℕ
line k p = stream k p.out ++ held k p

abbrev pub Filed : String → Option Event → Type 0
Filed k none = Unit {0}
Filed k (some ev) = files k ev ≡ true

abbrev pub BurstFiled : String → Burst → Type 0
BurstFiled k b = Filed k b.ev

-- Every window holds an event of its own key.
abbrev pub IsFiled : Plugin → Type 0
IsFiled p = EveryAt BurstFiled p.windows

pub stream-append :
    (k : String) (xs ys : List Event) → stream k (xs ++ ys) ≡ stream k xs ++ stream k ys
unfolding stream
stream-append k [] ys = refl
stream-append k (x ∷ xs) ys = ground (arith, stream-append k xs ys)

-- A dropped event is still the same event of the same key.
pub stream-with_dropped :
    (k by : String) (ev : Event) → stream k (with_dropped by ev ∷ []) ≡ stream k (ev ∷ [])
unfolding stream with_dropped
stream-with_dropped k by ev = ground arith

-- An event that leaves joins the end of its key's line, if the key holds nothing back.
pub line-emit :
    (k : String) (ev : Event) (p : Plugin)
    → (files k ev ≡ true → held k p ≡ [])
    → line k (emit ev p) ≡ line k p ++ stream k (ev ∷ [])
unfolding line emit held stream
line-emit k ev p nothing = elim (Bool-cases (files k ev)) [
  | inl ours ↦
      rw (stream-append, ours, nothing ours)
        (append_assoc (stream k p.out) (ev.id ∷ []) []
          ∙ sym (ap (λ l. l ++ ev.id ∷ []) (append-nil (stream k p.out))))
  | inr other ↦
      rw (stream-append, other)
        (append_assoc (stream k p.out) [] (held k p) ∙ sym (append-nil (line k p)))
]

pub files_same : (k j : String) (ev : Event) → files j ev ≡ true → files k ev ≡ str_eq j k
files_same k j ev ours =
    ground (arith, str_eq_iff (key ev) j, str_eq_iff (key ev) k, str_eq_iff j k)

-- What a key holds back, given what its window is.
pub held-of :
    (k j : String) (p : Plugin) (b : Burst)
    → lookup j p.windows ≡ some b
    → str_eq j k ≡ true
    → held k p ≡ of_event k b.ev
unfolding held
held-of k j p b found same =
    ap (λ i. of_event k (trailing (lookup i p.windows))) (sym ((str_eq_iff j k).0 same))
    ∙ ap (λ o. of_event k (trailing o)) found

held-delete :
    (k j : String) (p : Plugin)
    → held k (record p { windows = delete j p.windows }) ≡ (if str_eq j k then [] else held k p)
unfolding held
held-delete k j p = rw lookup-delete (by_test (str_eq j k))
  where
    by_test :
        (b : Bool)
        → of_event k (trailing (if b then none else lookup k p.windows))
          ≡ (if b then [] else of_event k (trailing (lookup k p.windows)))
    by_test true = refl
    by_test false = refl

pub held-insert :
    (k j : String) (b : Burst) (p : Plugin)
    → held k (record p { windows = insert j b p.windows })
      ≡ (if str_eq j k then of_event k b.ev else held k p)
unfolding held
held-insert k j b p = rw lookup-insert (by_test (str_eq j k))
  where
    by_test :
        (t : Bool)
        → of_event k (trailing (if t then some b else lookup k p.windows))
          ≡ (if t then of_event k b.ev else of_event k (trailing (lookup k p.windows)))
    by_test true = refl
    by_test false = refl

-- Closing a key's window, given what the window is.
module _ (j : String) (p : Plugin) where
  abbrev pub closed_with : Option Burst → Plugin
  closed_with none = p
  closed_with (some b) = emit_trailing b.ev (record p { windows = delete j p.windows })

  pub close-of : (o : Option Burst) → lookup j p.windows ≡ o → close j p ≡ closed_with o
  unfolding close
  close-of o e = by_window (lookup j p.windows) ∙ ap closed_with e
    where
      by_window :
          (w : Option Burst)
          → (elim w as (λ _. Plugin) [
            | none ↦ p
            | some b ↦ emit_trailing b.ev (record p { windows = delete j p.windows })
          ])
            ≡ closed_with w
      by_window none = refl
      by_window (some b) = refl

-- Closing a window changes when its event leaves, and not what leaves or in which order.
module _ (k j : String) (p : Plugin) where
  abbrev pub shut_window : Plugin
  shut_window = record p { windows = delete j p.windows }

  pub line-emit_trailing :
      (b : Burst) (o : Option Event)
      → lookup j p.windows ≡ some b
      → b.ev ≡ o
      → Filed j o
      → line k (emit_trailing o shut_window) ≡ line k p
  unfolding emit_trailing line stream
  line-emit_trailing b none found e filed =
      ap (λ l. stream k p.out ++ l)
        (held-delete k j p
          ∙ if_split (λ l. l ≡ held k p) (str_eq j k) [] (held k p)
              (λ same. sym (held-of k j p b found same ∙ ap (of_event k) e)) (λ _. refl))
  line-emit_trailing b (some ev) found e filed = elim (Bool-cases (str_eq j k)) [
    | inl same ↦
        let gone : held k shut_window ≡ [] =
          held-delete k j p ∙ ap (λ t. if t then [] else held k p) same in
        let before : held k p ≡ of_event k (some ev) =
          held-of k j p b found same ∙ ap (of_event k) e in
        line-emit k ev shut_window (λ _. gone)
        ∙ ap (λ h. (stream k p.out ++ h) ++ of_event k (some ev)) gone
        ∙ append_assoc (stream k p.out) [] (of_event k (some ev))
        ∙ ap (λ h. stream k p.out ++ h) (sym before)
    | inr apart ↦
        let kept : held k shut_window ≡ held k p =
          held-delete k j p ∙ ap (λ t. if t then [] else held k p) apart in
        let theirs : files k ev ≡ false = files_same k j ev filed ∙ apart in
        line-emit k ev shut_window (λ ours. cc (ours, theirs))
        ∙ ap (λ h. (stream k p.out ++ h) ++ of_event k (some ev)) kept
        ∙ ap (λ t. line k p ++ (if t then ev.id ∷ [] else [])) theirs
        ∙ append-nil (line k p)
  ]
