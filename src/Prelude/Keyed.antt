-- ===== src/Prelude/Keyed.antt =====
-- Predicates of a map's entries that mention the key.
use mathlib.Core.Path.{◌≡◌, sym, ap, ◌∙◌, subst}
use mathlib.Core.Logic.{inl, inr}
use mathlib.Core.Bool.{Bool, true, false}
use mathlib.Core.Option.{some}
use mathlib.Core.List.{[], ◌∷◌}
use Prim.Native.String.{String}
use text.Mathlib.Text.{◌==◌ as str_eq}
use text.Mathlib.TextEquality.{eq_iff}
use incus_compose.Prelude.Tests.{if◌then◌else◌, Bool-cases}
use incus_compose.Prelude.Dict.{Dict, lookup, insert, delete}

module _ {ℓ κ} {V : Type ℓ} (P : String → V → Type κ) where
  abbrev pub EveryAt : Dict V → Type κ
  EveryAt [] = Unit
  EveryAt ((k, v) ∷ m) = P k v × EveryAt m

  EveryAt-if : (b : Bool) (m n : Dict V) → EveryAt m → EveryAt n → EveryAt (if b then m else n)
  EveryAt-if true m n hm hn = hm
  EveryAt-if false m n hm hn = hn

  pub EveryAt-insert :
      (k : String) (v : V) (m : Dict V) → P k v → EveryAt m → EveryAt (insert k v m)
  unfolding insert
  EveryAt-insert k v [] p h = (p, h)
  EveryAt-insert k v ((j, w) ∷ m) p h =
      EveryAt-if (str_eq j k) ((k, v) ∷ m) ((j, w) ∷ insert k v m) (p, h.1)
        (h.0, EveryAt-insert k v m p h.1)

  pub EveryAt-delete : (k : String) (m : Dict V) → EveryAt m → EveryAt (delete k m)
  unfolding delete
  EveryAt-delete k [] h = h
  EveryAt-delete k ((j, w) ∷ m) h =
      let rest = EveryAt-delete k m h.1 in
      EveryAt-if (str_eq j k) (delete k m) ((j, w) ∷ delete k m) rest (h.0, rest)

  pub EveryAt-lookup : (k : String) (m : Dict V) {v : V} → EveryAt m → lookup k m ≡ some v → P k v
  unfolding lookup
  EveryAt-lookup k [] h e = cc
  EveryAt-lookup k ((j, w) ∷ m) {v} h e = elim (Bool-cases (str_eq j k)) [
    | inl same ↦
        let found : some w ≡ some v = sym (ap (λ b. if b then some w else lookup k m) same) ∙ e in
        subst (P k) (cc found) (subst (λ i. P i w) ((eq_iff j k).0 same) h.0)
    | inr other ↦
        EveryAt-lookup k m h.1 (sym (ap (λ b. if b then some w else lookup k m) other) ∙ e)
  ]
