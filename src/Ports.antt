-- ===== src/Ports.antt =====
-- The port specifications of a network's rules: `parsePortSpecs` and `validatePortOrRange` of
-- project/network_acl.go.
use Prim.Native.Char.{Char, code}
use incus_compose.Prelude.{
  ℕ, ◌+◌, ◌-◌, ◌*◌, Bool, true, false, not, ◌&&◌, ◌||◌, Option, none, some, String, List, [], ◌∷◌,
  ◌++◌, ◌⊎◌, inl, inr, map, str_eq, str_append, if◌then◌else◌, ltb, leb, ◌==◌, cut, trim_space,
}
use incus_compose.Prelude.Dict.{Dict, lookup, insert}
mod Split
mod Groups
mod Tests

-- `strings.Split(s, ",")`: the first piece, and the others.
unfoldable pub pieces : String → String × List String
pieces String.[] = ("", [])
pieces (String.◌∷◌ c s) =
    let rest = pieces s in
    if code c == 44 then ("", rest.0 ∷ rest.1) else (String.◌∷◌ c rest.0, rest.1)

abbrev pub split : String → List String
split s = let all = pieces s in all.0 ∷ all.1

-- `strings.Join(parts, ",")`
unfoldable pub join : List String → String
join [] = ""
join (part ∷ []) = part
join (part ∷ next ∷ more) = str_append part (String.◌∷◌ "," (join (next ∷ more)))

-- `strconv.ParseUint(s, 10, 16)`, from a value read so far.
unfoldable pub digits : String → ℕ → Option ℕ
digits String.[] n = some n
digits (String.◌∷◌ c s) n =
    let rest = digits s (n * 10 + (code c - 48)) in
    if leb 48 (code c) && leb (code c) 57 then rest else none

unfoldable pub parse_uint16 : String → Option ℕ
parse_uint16 s =
    if str_eq s ""
    then none
    else elim (digits s 0) [ none ↦ none | some n ↦ if leb n 65535 then some n else none ]

abbrev pub is_port : Option ℕ → Bool
is_port none = false
is_port (some n) = not (n == 0)

abbrev pub is_range : Option ℕ → Option ℕ → Bool
is_range none end = false
is_range (some m) none = false
is_range (some m) (some n) = not (m == 0 || n == 0 || ltb n m)

-- One round of `validatePortOrRange`.
unfoldable pub valid_part : String → Bool
valid_part s =
    let part = trim_space s in
    if str_eq part "" then false else elim (cut "-" part) [
      | none ↦ is_port (parse_uint16 part)
      | some (start, end) ↦
          is_range (parse_uint16 (trim_space start)) (parse_uint16 (trim_space end))
    ]

abbrev pub all_valid : List String → Bool
all_valid [] = true
all_valid (part ∷ parts) = valid_part part && all_valid parts

-- `validatePortOrRange` returns nil.
unfoldable pub validate_port_or_range : String → Bool
validate_port_or_range s = all_valid (split s)

-- `strings.ToLower`, as far as it can make a letter of a protocol's name.
lower_code : ℕ → ℕ
lower_code n = if leb 65 n && leb n 90 then n + 32 else if n == 304 then 105 else n

-- The text in lower case is the name.
unfoldable pub lower_is : String → String → Bool
unfolding lower_code
lower_is String.[] String.[] = true
lower_is String.[] (String.◌∷◌ d t) = false
lower_is (String.◌∷◌ c s) String.[] = false
lower_is (String.◌∷◌ c s) (String.◌∷◌ d t) = (lower_code (code c) == code d) && lower_is s t

unfoldable pub slashes : String → ℕ
slashes String.[] = 0
slashes (String.◌∷◌ c s) = let rest = slashes s in if code c == 47 then 1 + rest else rest

pub data Protocol : Type 0 where
  tcp udp icmp4 icmp6 : Protocol

abbrev pub protocol_text : Protocol → String
protocol_text tcp = "tcp"
protocol_text udp = "udp"
protocol_text icmp4 = "icmp4"
protocol_text icmp6 = "icmp6"

-- The cases of the switch on the protocol.
unfoldable pub protocol_of : String → Option Protocol
protocol_of proto =
    if lower_is proto "tcp"
    then some tcp
    else if lower_is proto "udp"
    then some udp
    else if lower_is proto "icmp4"
    then some icmp4
    else if lower_is proto "icmp6"
    then some icmp6
    else none

pub data Refusal : Type 0 where
  empty_spec invalid_spec invalid_port only_wildcard unsupported_protocol : Refusal

-- What one specification says: its ports and its protocol, or why it is refused.
unfoldable pub meaning : String → (String × Protocol) ⊎ Refusal
meaning raw =
    let spec = trim_space raw in
    let halves = elim (cut "/" spec) as (λ c. String × String) [
      | none ↦ (spec, "tcp")
      | some (port, proto) ↦ (trim_space port, trim_space proto)
    ] in
    if str_eq spec ""
    then inr empty_spec
    else if ltb 1 (slashes spec)
    then inr invalid_spec
    else if str_eq halves.0 "" || str_eq halves.1 ""
    then inr invalid_spec
    else elim (protocol_of halves.1) [
      | none ↦ inr unsupported_protocol
      | some p ↦ inl (halves.0, p)
    ]

-- The three variables of the loop; a map is a function of the protocol.
pub record Reading : Type 0 where
  pub order : List Protocol
  pub by_proto : Protocol → List String
  pub wildcard : Protocol → Bool

abbrev pub same : Protocol → Protocol → Bool
same p q = str_eq (protocol_text p) (protocol_text q)

abbrev pub contains : List Protocol → Protocol → Bool
contains [] p = false
contains (q ∷ qs) p = same q p || contains qs p

abbrev pub takes_ports : Protocol → Bool
takes_ports tcp = true
takes_ports udp = true
takes_ports icmp4 = false
takes_ports icmp6 = false

-- `slices.Contains(order, proto)` and what follows it
abbrev pub noted : Protocol → List Protocol → List Protocol
noted p order = if contains order p then order else order ++ p ∷ []

-- One round of the loop, once the specification is taken apart.
unfoldable pub read_meaning : String → Protocol → Reading → Reading ⊎ Refusal
read_meaning port p r =
    let starred = record r {
      order = noted p r.order;
      wildcard = λ q. if same p q then true else r.wildcard q;
    } in
    let longer = record r {
      order = noted p r.order;
      by_proto = λ q. if same p q then r.by_proto q ++ port ∷ [] else r.by_proto q;
    } in
    if str_eq port "*"
    then inl starred
    else if not (takes_ports p)
    then inr only_wildcard
    else if validate_port_or_range port
    then inl longer
    else inr invalid_port

-- The loop of `parsePortSpecs`.
unfoldable pub read_all : List String → Reading → Reading ⊎ Refusal
read_all [] r = inl r
read_all (raw ∷ raws) r = elim (meaning raw) [
  | inr why ↦ inr why
  | inl (port, p) ↦ elim (read_meaning port p r) [
    | inr why ↦ inr why
    | inl next ↦ read_all raws next
  ]
]

-- `portGroup`; no protocol is the empty text.
pub record Group : Type 0 where
  pub protocol : Option Protocol
  pub ports : String

unfoldable pub group_of : Reading → Protocol → Group
group_of r p = record {
  protocol = some p;
  ports = if r.wildcard p then "" else join (r.by_proto p);
}

abbrev pub nothing_read : Reading
nothing_read = record { order = []; by_proto = λ p. []; wildcard = λ p. false }

-- `parsePortSpecs`
unfoldable pub parse_port_specs : List String → (List Group) ⊎ Refusal
parse_port_specs [] = inl (record { protocol = none; ports = "" } ∷ [])
parse_port_specs (raw ∷ raws) = elim (read_all (raw ∷ raws) nothing_read) [
  | inr why ↦ inr why
  | inl r ↦ inl (map (group_of r) r.order)
]
