-- ===== src/Placement/Names.antt =====
-- The names of the members of a cluster, and how often a replica is put on one of them
-- (project/placement.go).
use incus_compose.Prelude.{
  ℕ, ◌≤◌, ◌≡◌, refl, sym, ◌∙◌, ◌&&◌, String, List, [], ◌∷◌, arith, str_eq, if_both, count_if,
}
use incus_compose.Placement.{Member, Constraint, online, matches_all, keep_members}
use incus_compose.Placement.Order.{order_members}
use incus_compose.Placement.Deal.{order_members-count}
use incus_compose.Placement.Resolve.{names_of}

-- How many targets are the member's name.
abbrev pub targeted : String → List String → ℕ
targeted name targets = count_if (λ t. str_eq t name) targets

-- No two members of the list have one name.
abbrev pub Distinct : List Member → Type 0
Distinct ms = (name : String) → targeted name (names_of ms) ≤ 1

targeted-names_of :
    (name : String) (ms : List Member)
    → targeted name (names_of ms) ≡ count_if (λ m. str_eq m.server_name name) ms
targeted-names_of name [] = refl
targeted-names_of name (m ∷ ms) = ground (arith, targeted-names_of name ms)

-- The order of the members names each of them as often as the list does.
pub targeted-order_members :
    (name preferred : String) (preferences : List String) (ms : List Member)
    → targeted name (names_of (order_members preferred preferences ms))
      ≡ targeted name (names_of ms)
targeted-order_members name preferred preferences ms =
    targeted-names_of name (order_members preferred preferences ms)
    ∙ order_members-count (λ m. str_eq m.server_name name) preferred preferences ms
    ∙ sym (targeted-names_of name ms)

pub targeted-keep_members :
    (name : String) (cs : List Constraint) (ms : List Member)
    → targeted name (names_of (keep_members cs ms)) ≤ targeted name (names_of ms)
unfolding keep_members
targeted-keep_members name cs [] = omega arith
targeted-keep_members name cs (m ∷ ms) =
    if_both (λ l. targeted name (names_of l) ≤ targeted name (names_of (m ∷ ms)))
      (online m && matches_all cs m) (m ∷ keep_members cs ms) (keep_members cs ms)
      (ground (arith, targeted-keep_members name cs ms))
      (ground (arith, targeted-keep_members name cs ms))
