-- ===== src/Ports/Split.antt =====
-- Joining texts and splitting them again (project/network_acl.go).
use Prim.Native.String.append
use Prim.Native.Char.{Char, code}
use incus_compose.Prelude.{
  ◌≡◌, refl, sym, ap, ◌∙◌, true, String, List, [], ◌∷◌, ◌++◌, arith, str_append, if◌then◌else◌,
  ◌==◌, All, if_push,
}
use incus_compose.Ports.{pieces, split, join, all_valid, validate_port_or_range}

all_valid-append :
    (xs ys : List String) → all_valid xs ≡ true → all_valid ys ≡ true → all_valid (xs ++ ys) ≡ true
all_valid-append [] ys hx hy = hy
all_valid-append (x ∷ xs) ys hx hy = ground (arith, all_valid-append xs ys)

-- One character more before the pieces.
abbrev put_first : Char → List String → List String
put_first c [] = []
put_first c (part ∷ parts) = if code c == 44 then "" ∷ part ∷ parts else String.◌∷◌ c part ∷ parts

split-put_first : (c : Char) (s : String) → split (String.◌∷◌ c s) ≡ put_first c (split s)
unfolding pieces
split-put_first c s =
    let whole : String × List String → List String = λ all. all.0 ∷ all.1 in
    sym (if_push whole (code c == 44) refl refl)

put_first-append :
    (c : Char) (part : String) (parts more : List String)
    → put_first c ((part ∷ parts) ++ more) ≡ put_first c (part ∷ parts) ++ more
put_first-append c part parts more =
    let then_more : List String → List String = λ l. l ++ more in
    if_push then_more (code c == 44) refl refl

-- A text that goes on after a comma has the pieces of both sides.
split-append : (s t : String) → split (str_append s (String.◌∷◌ "," t)) ≡ split s ++ split t
unfolding pieces
split-append String.[] t = ap split (append.nil (String.◌∷◌ "," t))
split-append (String.◌∷◌ c s) t =
    ap split (append.cons c s (String.◌∷◌ "," t))
    ∙ split-put_first c (str_append s (String.◌∷◌ "," t))
    ∙ ap (put_first c) (split-append s t)
    ∙ put_first-append c (pieces s).0 (pieces s).1 (split t)
    ∙ ap (λ l. l ++ split t) (sym (split-put_first c s))

-- The pieces of valid texts make a valid text.
pub join-valid :
    (part : String) (parts : List String)
    → All (λ p. validate_port_or_range p ≡ true) (part ∷ parts)
    → validate_port_or_range (join (part ∷ parts)) ≡ true
unfolding validate_port_or_range join
join-valid part [] h = h.0
join-valid part (next ∷ more) h =
    ap all_valid (split-append part (join (next ∷ more)))
    ∙ all_valid-append (split part) (split (join (next ∷ more))) h.0 (join-valid next more h.1)
