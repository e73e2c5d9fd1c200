-- ===== src/Debounce/Closing.antt =====
-- Windows closing (ievent/debounce/debounce.go): the line of a key stands still while they do, and
-- closing them all leaves none.
use incus_compose.Prelude.{
  ℕ, ◌≡◌, refl, ap, sym, ◌∙◌, Option, none, some, String, [], ◌∷◌, ltb, Option-cases, inl, inr,
  if◌then◌else◌, if_both, if_split, str_eq, str_eq_iff, subst,
}
use incus_compose.Prelude.Dict.{Dict, lookup, delete, lookup-delete}
use incus_compose.Prelude.Keyed.{EveryAt, EveryAt-delete, EveryAt-lookup}
use incus_compose.Debounce.{
  Event, Burst, Plugin, emit, emit_trailing, close, close_due, close_expired, close_each, close_all,
}
use incus_compose.Debounce.Stream.{line, BurstFiled, IsFiled, close-of, line-emit_trailing}

pub windows-emit_trailing :
    (o : Option Event) (p : Plugin) → (emit_trailing o p).windows ≡ p.windows
unfolding emit_trailing emit
windows-emit_trailing none p = refl
windows-emit_trailing (some ev) p = refl

pub line-close : (k j : String) (p : Plugin) → IsFiled p → line k (close j p) ≡ line k p
line-close k j p filed = elim (Option-cases (lookup j p.windows)) [
  | inl shut ↦ ap (line k) (close-of j p none shut)
  | inr (b, found) ↦
      ap (line k) (close-of j p (some b) found)
      ∙ line-emit_trailing k j p b b.ev found refl
          (EveryAt-lookup BurstFiled j p.windows filed found)
]

pub lookup-close :
    (k j : String) (p : Plugin)
    → lookup k (close j p).windows ≡ (if str_eq j k then none else lookup k p.windows)
lookup-close k j p = elim (Option-cases (lookup j p.windows)) [
  | inl shut ↦
      ap (λ q. lookup k q.windows) (close-of j p none shut)
      ∙ if_split (λ (o : Option Burst). lookup k p.windows ≡ o) (str_eq j k) none
          (lookup k p.windows)
          (λ same. ap (λ i. lookup i p.windows) (sym ((str_eq_iff j k).0 same)) ∙ shut) (λ _. refl)
  | inr (b, found) ↦
      ap (λ q. lookup k q.windows) (close-of j p (some b) found)
      ∙ ap (lookup k) (windows-emit_trailing b.ev (record p { windows = delete j p.windows }))
      ∙ lookup-delete j k p.windows
]

pub close-IsFiled : (j : String) (p : Plugin) → IsFiled p → IsFiled (close j p)
close-IsFiled j p filed = elim (Option-cases (lookup j p.windows)) [
  | inl shut ↦ subst IsFiled (sym (close-of j p none shut)) filed
  | inr (b, found) ↦ subst IsFiled (sym (close-of j p (some b) found)) (
      subst (EveryAt BurstFiled)
        (sym (windows-emit_trailing b.ev (record p { windows = delete j p.windows })))
        (EveryAt-delete BurstFiled j p.windows filed))
]

pub line-close_each :
    (k : String) (m : Dict Burst) (p : Plugin) → IsFiled p → line k (close_each m p) ≡ line k p
unfolding close_each
line-close_each k [] p filed = refl
line-close_each k ((j, b) ∷ m) p filed =
    line-close_each k m (close j p) (close-IsFiled j p filed) ∙ line-close k j p filed

-- What the entries name is closed, and a key that is closed stays closed.
pub lookup-close_each :
    (k : String) (m : Dict Burst) (p : Plugin)
    → (lookup k m ≡ none → lookup k p.windows ≡ none)
    → lookup k (close_each m p).windows ≡ none
unfolding close_each lookup
lookup-close_each k [] p covered = covered refl
lookup-close_each k ((j, b) ∷ m) p covered = lookup-close_each k m (close j p) (λ missing.
    lookup-close k j p
    ∙ if_split (λ (o : Option Burst). o ≡ none) (str_eq j k) none (lookup k p.windows) (λ _. refl)
        (λ other. covered (ap (λ t. if t then some b else lookup k m) other ∙ missing)))

pub lookup-close_all : (k : String) (p : Plugin) → lookup k (close_all p).windows ≡ none
unfolding close_all
lookup-close_all k p = lookup-close_each k p.windows p (λ missing. missing)

-- A pass over the expired windows leaves every key's line as it was.
pub line-close_due :
    (k : String) (now : ℕ) (m : Dict Burst) (p : Plugin)
    → IsFiled p
    → (line k (close_due now m p) ≡ line k p) × IsFiled (close_due now m p)
unfolding close_due
line-close_due k now [] p filed = (refl, filed)
line-close_due k now ((j, b) ∷ m) p filed =
    let after = if ltb now b.at then p else close j p in
    let kept : (line k after ≡ line k p) × IsFiled after =
      if_both (λ (q : Plugin). (line k q ≡ line k p) × IsFiled q) (ltb now b.at) p (close j p)
        (refl, filed) (line-close k j p filed, close-IsFiled j p filed) in
    let rest = line-close_due k now m after kept.1 in (rest.0 ∙ kept.0, rest.1)

-- When the windows each hold an event of their own key, a pass of the timer leaves, for every key,
-- what has left and is held back as it was, and keeps each window holding an event of its own key.
pub close_expired-line :
    (k : String) (now : ℕ) (p : Plugin)
    → IsFiled p
    → (line k (close_expired now p) ≡ line k p) × IsFiled (close_expired now p)
unfolding close_expired
close_expired-line k now p filed = line-close_due k now p.windows p filed
