-- ===== src/Views/Claims.antt =====
-- What the operations on the views (cmd/ic-dns/dns/state.go) do to the claims.
use incus_compose.Prelude.{
  ℕ, ◌+◌, ◌-◌, ◌≡◌, refl, ap, sym, ◌∙◌, Bool, true, false, ◌&&◌, Option, none, some, String, [],
  ◌∷◌, ltb, arith, if◌then◌else◌, if_split, str_eq, str_eq_iff,
}
use incus_compose.Prelude.Dict.{Dict, lookup, insert, delete, lookup-insert, lookup-delete}
use incus_compose.Views.{Nets, over_of, count_of, claims, claim_one, drop_over, drop, is_nil}

-- Whether a claim on `id` over `key` is one on `v` over `k`.
abbrev pub hits : String → String → String → String → ℕ
hits key id k v = if str_eq key k && str_eq id v then 1 else 0

-- A map put in for one network.
claims-insert :
    (key k v : String) (over : Dict ℕ) (nets : Nets)
    → claims (insert key over nets) k v
      ≡ (if str_eq key k then count_of (lookup v over) else claims nets k v)
unfolding claims
claims-insert key k v over nets =
    ap (λ o. count_of (lookup v (over_of o))) (lookup-insert key k over nets)
    ∙ by_test (str_eq key k)
  where
    by_test :
        (b : Bool)
        → count_of (lookup v (over_of (if b then some over else lookup k nets)))
          ≡ (if b then count_of (lookup v over) else count_of (lookup v (over_of (lookup k nets))))
    by_test true = refl
    by_test false = refl

claims-delete :
    (key k v : String) (nets : Nets)
    → claims (delete key nets) k v ≡ (if str_eq key k then 0 else claims nets k v)
unfolding claims lookup
claims-delete key k v nets =
    ap (λ o. count_of (lookup v (over_of o))) (lookup-delete key k nets) ∙ by_test (str_eq key k)
  where
    by_test :
        (b : Bool)
        → count_of (lookup v (over_of (if b then none else lookup k nets)))
          ≡ (if b then 0 else count_of (lookup v (over_of (lookup k nets))))
    by_test true = refl
    by_test false = refl

count-insert :
    (id v : String) (n : ℕ) (over : Dict ℕ)
    → count_of (lookup v (insert id n over)) ≡ (if str_eq id v then n else count_of (lookup v over))
count-insert id v n over = ap count_of (lookup-insert id v n over) ∙ by_test (str_eq id v)
  where
    by_test :
        (b : Bool)
        → count_of (if b then some n else lookup v over)
          ≡ (if b then n else count_of (lookup v over))
    by_test true = refl
    by_test false = refl

count-delete :
    (id v : String) (over : Dict ℕ)
    → count_of (lookup v (delete id over)) ≡ (if str_eq id v then 0 else count_of (lookup v over))
count-delete id v over = ap count_of (lookup-delete id v over) ∙ by_test (str_eq id v)
  where
    by_test :
        (b : Bool)
        → count_of (if b then none else lookup v over) ≡ (if b then 0 else count_of (lookup v over))
    by_test true = refl
    by_test false = refl

-- A claim in its own place.
claims-same :
    (key id k v : String) (nets : Nets)
    → str_eq key k ≡ true
    → str_eq id v ≡ true
    → claims nets k v ≡ claims nets key id
claims-same key id k v nets hk hv =
    ap (λ x. claims nets x v) (sym ((str_eq_iff key k).0 hk))
    ∙ ap (λ x. claims nets key x) (sym ((str_eq_iff id v).0 hv))

claims-over :
    (key k v : String) (nets : Nets)
    → str_eq key k ≡ true
    → claims nets k v ≡ count_of (lookup v (over_of (lookup key nets)))
unfolding claims
claims-over key k v nets hk =
    ap (λ x. count_of (lookup v (over_of (lookup x nets)))) (sym ((str_eq_iff key k).0 hk))

-- One more in its place, one less in its place, and nothing elsewhere.
one_more :
    (a b : Bool) (x y c : ℕ)
    → (a ≡ true → b ≡ true → c ≡ x)
    → (a ≡ true → c ≡ y)
    → (if a then if b then x + 1 else y else c) ≡ c + (if a && b then 1 else 0)
one_more true true x y c hx hy = omega (arith, hx refl refl)
one_more true false x y c hx hy = omega (arith, hy refl)
one_more false b x y c hx hy = omega arith

one_less :
    (a b : Bool) (x y c : ℕ)
    → (a ≡ true → b ≡ true → c ≡ x)
    → (a ≡ true → c ≡ y)
    → (if a then if b then x - 1 else y else c) ≡ c - (if a && b then 1 else 0)
one_less true true x y c hx hy = omega (arith, hx refl refl)
one_less true false x y c hx hy = omega (arith, hy refl)
one_less false b x y c hx hy = omega arith

pub claims-claim_one :
    (key id k v : String) (nets : Nets)
    → claims (claim_one key id nets) k v ≡ claims nets k v + hits key id k v
unfolding claim_one
claims-claim_one key id k v nets =
    let over = over_of (lookup key nets) in
    claims-insert key k v (insert id (claims nets key id + 1) over) nets
    ∙ ap (λ c. if str_eq key k then c else claims nets k v)
        (count-insert id v (claims nets key id + 1) over)
    ∙ one_more (str_eq key k) (str_eq id v) (claims nets key id) (count_of (lookup v over))
        (claims nets k v) (claims-same key id k v nets) (claims-over key k v nets)

none_less : (a b : Bool) (c : ℕ) → (a ≡ true → c ≡ 0) → c ≡ c - (if a && b then 1 else 0)
none_less true b c h = omega (arith, h refl)
none_less false b c h = omega arith

-- A map with one claim less on a view, put in for its network.
claims-lowered :
    (key id k v : String) (nets : Nets) (over lower : Dict ℕ)
    → lookup key nets ≡ some over
    → count_of (lookup v lower)
      ≡ (if str_eq id v then count_of (lookup id over) - 1 else count_of (lookup v over))
    → claims (insert key lower nets) k v ≡ claims nets k v - hits key id k v
unfolding claims
claims-lowered key id k v nets over lower e lowered =
    let at : over_of (lookup key nets) ≡ over = ap over_of e in
    claims-insert key k v lower nets
    ∙ ap (λ c. if str_eq key k then c else claims nets k v) lowered
    ∙ one_less (str_eq key k) (str_eq id v) (count_of (lookup id over)) (count_of (lookup v over))
        (claims nets k v)
        (λ hk hv. claims-same key id k v nets hk hv ∙ ap (λ l. count_of (lookup id l)) at)
        (λ hk. claims-over key k v nets hk ∙ ap (λ l. count_of (lookup v l)) at)

drop_over-claims :
    (key id k v : String) (nets : Nets) (o : Option (Dict ℕ))
    → lookup key nets ≡ o
    → claims (drop_over key id nets o).1 k v ≡ claims nets k v - hits key id k v
unfolding drop_over lookup
drop_over-claims key id k v nets none e =
    none_less (str_eq key k) (str_eq id v) (claims nets k v)
      (λ hk. claims-over key k v nets hk ∙ ap (λ o. count_of (lookup v (over_of o))) e)
drop_over-claims key id k v nets (some over) e =
    let left : ℕ = count_of (lookup id over) - 1 in
    if_split (λ (r : Bool × Nets). claims r.1 k v ≡ claims nets k v - hits key id k v) (ltb 0 left)
      (false, insert key (insert id left over) nets) (true, insert key (delete id over) nets)
      (λ some_left.
        claims-lowered key id k v nets over (insert id left over) e (count-insert id v left over))
      (λ none_left.
        let spent : 0 ≡ left = ground (arith, none_left) in
        claims-lowered key id k v nets over (delete id over) e (
          count-delete id v over
          ∙ ap (λ n. if str_eq id v then n else count_of (lookup v over)) spent))

-- A drop takes one claim off, if there is one, and only there.
pub claims-drop :
    (key id k v : String) (nets : Nets)
    → claims (drop key id nets).1 k v ≡ claims nets k v - hits key id k v
unfolding drop
claims-drop key id k v nets = drop_over-claims key id k v nets (lookup key nets) refl

-- A network is only taken out where it has no claims left.
pub claims-swept :
    (key k v : String) (nets : Nets)
    → claims (if is_nil (over_of (lookup key nets)) then delete key nets else nets) k v
      ≡ claims nets k v
unfolding lookup
claims-swept key k v nets =
    if_split (λ (n : Nets). claims n k v ≡ claims nets k v) (is_nil (over_of (lookup key nets)))
      (delete key nets) nets
      (λ empty.
        claims-delete key k v nets
        ∙ if_split (λ (n : ℕ). n ≡ claims nets k v) (str_eq key k) 0 (claims nets k v)
            (λ hk. sym (claims-over key k v nets hk ∙ empty_none (over_of (lookup key nets)) empty))
            (λ _. refl))
      (λ _. refl)
  where
    empty_none : (over : Dict ℕ) → is_nil over ≡ true → count_of (lookup v over) ≡ 0
    empty_none [] e = refl
    empty_none (x ∷ over) e = cc e
