-- ===== src/Prelude/Dict.antt =====
-- Go maps with string keys, as association lists. The order of the entries is the order in which a
-- `range` happens to visit them; no key stands twice in a map built by `insert`.
use mathlib.Core.Path.{◌≡◌, refl, sym, ap, ◌∙◌, subst}
use mathlib.Core.Logic.{inl, inr}
use mathlib.Core.Bool.{Bool, true, false}
use mathlib.Core.Option.{Option, none, some}
use mathlib.Core.List.{List, [], ◌∷◌}
use Prim.Native.String.{String}
use native.Mathlib.Omega.{arith}
use text.Mathlib.Text.{◌==◌ as str_eq}
use text.Mathlib.TextEquality.{eq_iff}
use incus_compose.Prelude.Tests.{if◌then◌else◌, Bool-cases}

abbrev pub Dict {ℓ} : Type ℓ → Type ℓ
Dict V = List (String × V)

module _ {ℓ} {V : Type ℓ} where
  unfoldable pub delete : String → Dict V → Dict V
  delete key [] = []
  delete key ((found, old) ∷ more) =
      let rest = delete key more in if str_eq found key then rest else (found, old) ∷ rest

  unfoldable pub lookup : String → Dict V → Option V
  lookup key [] = none
  lookup key ((found, value) ∷ more) =
      let deeper = lookup key more in if str_eq found key then some value else deeper

  unfoldable pub insert : String → V → Dict V → Dict V
  insert key new [] = (key, new) ∷ []
  insert key new ((found, old) ∷ more) =
      let rest = insert key new more in
      if str_eq found key then (key, new) ∷ more else (found, old) ∷ rest

  -- What the map holds for one key once another has been taken out.
  pub lookup-delete :
      (k j : String) (m : Dict V)
      → lookup j (delete k m) ≡ (if str_eq k j then none else lookup j m)
  unfolding lookup delete
  lookup-delete key other [] = ground arith
  lookup-delete key other ((found, old) ∷ more) =
      ground (
        arith,
        lookup-delete key other more,
        eq_iff found key,
        eq_iff found other,
        eq_iff key other,
      )

  -- And once another has been put in.
  pub lookup-insert :
      (k j : String) (v : V) (m : Dict V)
      → lookup j (insert k v m) ≡ (if str_eq k j then some v else lookup j m)
  unfolding insert lookup
  lookup-insert key other new [] = refl
  lookup-insert key other new ((found, old) ∷ more) = ground (
    arith,
    lookup-insert key other new more,
    eq_iff found other,
    eq_iff found key,
    eq_iff key other,
  )

module _ {ℓ κ} {V : Type ℓ} (P : V → Type κ) where
  -- Every value of the map has the property.
  abbrev pub Every : Dict V → Type κ
  Every [] = Unit
  Every ((k, v) ∷ m) = P v × Every m

  Every-if : (b : Bool) (m n : Dict V) → Every m → Every n → Every (if b then m else n)
  Every-if true m n hm hn = hm
  Every-if false m n hm hn = hn

  pub Every-insert : (k : String) (v : V) (m : Dict V) → P v → Every m → Every (insert k v m)
  unfolding insert
  Every-insert k v [] p h = (p, h)
  Every-insert k v ((j, w) ∷ m) p h =
      Every-if (str_eq j k) ((k, v) ∷ m) ((j, w) ∷ insert k v m) (p, h.1)
        (h.0, Every-insert k v m p h.1)

  pub Every-delete : (k : String) (m : Dict V) → Every m → Every (delete k m)
  unfolding delete
  Every-delete k [] h = h
  Every-delete k ((j, w) ∷ m) h =
      let rest = Every-delete k m h.1 in
      Every-if (str_eq j k) (delete k m) ((j, w) ∷ delete k m) rest (h.0, rest)

  pub Every-lookup : (k : String) (m : Dict V) {v : V} → Every m → lookup k m ≡ some v → P v
  unfolding lookup
  Every-lookup k [] h e = cc
  Every-lookup k ((j, w) ∷ m) {v} h e = elim (Bool-cases (str_eq j k)) [
    | inl same ↦
        let found : some w ≡ some v = sym (ap (λ b. if b then some w else lookup k m) same) ∙ e in
        subst P (cc found) h.0
    | inr other ↦ Every-lookup k m h.1 (sym (ap (λ b. if b then some w else lookup k m) other) ∙ e)
  ]

pub Every-mono {ℓ κ} :
    {V : Type ℓ} (P Q : V → Type κ) (m : Dict V) → ((v : V) → P v → Q v) → Every P m → Every Q m
Every-mono P Q [] f h = tt
Every-mono P Q ((k, v) ∷ m) f h = (f v h.0, Every-mono P Q m f h.1)
