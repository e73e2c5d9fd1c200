-- ===== src/Prelude/Tests.antt =====
-- Boolean tests on the native numbers and on texts, and the conditional.
use Prim.Native.Nat.{ℕ, ◌≤◌, ◌<◌, compare, Ordering}
use mathlib.Core.Path.{◌≡◌, refl}
use mathlib.Core.Logic.{◌↔◌, ◌⊎◌, inl, inr}
use mathlib.Core.Bool.{Bool, true, false}
use mathlib.Core.Option.{Option, none, some}
use native.Mathlib.Omega.{arith}

abbrev pub ltb : ℕ → ℕ → Bool
ltb a b = elim (compare a b) [ Ordering.lt ↦ true | _ ↦ false ]

abbrev pub leb : ℕ → ℕ → Bool
leb a b = elim (compare a b) [ Ordering.gt ↦ false | _ ↦ true ]

infix 50 ◌==◌
abbrev pub ◌==◌ : ℕ → ℕ → Bool
a == b = elim (compare a b) [ Ordering.eq ↦ true | _ ↦ false ]

infix 1 if◌then◌else◌
abbrev pub if◌then◌else◌ {ℓ} : {A : Type ℓ} → Bool → A → A → A
if true then x else y = x
if false then x else y = y

pub ltb→lt : (a b : ℕ) → ltb a b ≡ true → a < b
ltb→lt a b h = ground arith

pub lt→ltb : (a b : ℕ) → a < b → ltb a b ≡ true
lt→ltb a b h = ground arith

pub ltb→le : (a b : ℕ) → ltb a b ≡ false → b ≤ a
ltb→le a b h = ground arith

pub leb→le : (a b : ℕ) → leb a b ≡ true → a ≤ b
leb→le a b h = ground arith

pub le→leb : (a b : ℕ) → a ≤ b → leb a b ≡ true
le→leb a b h = ground arith

pub ==_iff : (a b : ℕ) → ((a == b) ≡ true) ↔ (a ≡ b)
==_iff a b = ground arith

-- A split on a computed value that keeps the equation.
pub Bool-cases : (b : Bool) → (b ≡ true) ⊎ (b ≡ false)
Bool-cases true = inl refl
Bool-cases false = inr refl

pub Option-cases {ℓ} : {A : Type ℓ} (o : Option A) → (o ≡ none) ⊎ ((a : A) × (o ≡ some a))
Option-cases none = inl refl
Option-cases (some a) = inr (a, refl)

-- What holds of both branches holds of the conditional.
pub if_both {ℓ κ} :
    {A : Type ℓ} (P : A → Type κ) (b : Bool) (x y : A) → P x → P y → P (if b then x else y)
if_both P true x y hx hy = hx
if_both P false x y hx hy = hy

-- The same, where each branch may use its test.
pub if_split {ℓ κ} :
    {A : Type ℓ} (P : A → Type κ) (b : Bool) (x y : A)
    → (b ≡ true → P x)
    → (b ≡ false → P y)
    → P (if b then x else y)
if_split P true x y hx hy = hx refl
if_split P false x y hx hy = hy refl

-- A function of a conditional, branch by branch.
pub if_push {ℓ κ} :
    {A : Type ℓ} {B : Type κ} (f : A → B) (b : Bool) {x y : B} {u v : A}
    → x ≡ f u
    → y ≡ f v
    → (if b then x else y) ≡ f (if b then u else v)
if_push f true hx hy = hx
if_push f false hx hy = hy

pub le_cases : (a b : ℕ) → (a ≤ b) ⊎ (b < a)
le_cases a b = ground arith

-- Two conditionals on one test.
pub if_both₂ {ℓ κ μ} :
    {A : Type ℓ} {B : Type κ} (P : A → B → Type μ) (b : Bool) (x y : A) (u v : B)
    → P x u
    → P y v
    → P (if b then x else y) (if b then u else v)
if_both₂ P true x y u v hx hy = hx
if_both₂ P false x y u v hx hy = hy

-- What holds of both cases of an option, where each case may use what the option is.
pub option_split {ℓ κ μ} :
    {A : Type ℓ} {B : Type κ} (P : B → Type μ) (o : Option A) (x : B) (f : A → B)
    → (o ≡ none → P x)
    → ((a : A) → o ≡ some a → P (f a))
    → P (elim o as (λ y. B) [ none ↦ x | some a ↦ f a ])
option_split P none x f hx hf = hx refl
option_split P (some a) x f hx hf = hf a refl

-- The same for a sum.
pub sum_split {ℓ κ μ ν} :
    {A : Type ℓ} {B : Type κ} {C : Type μ} (P : C → Type ν) (o : A ⊎ B) (f : A → C) (g : B → C)
    → ((a : A) → o ≡ inl a → P (f a))
    → ((b : B) → o ≡ inr b → P (g b))
    → P (elim o as (λ y. C) [ inl a ↦ f a | inr b ↦ g b ])
sum_split P (inl a) f g hf hg = hf a refl
sum_split P (inr b) f g hf hg = hg b refl
