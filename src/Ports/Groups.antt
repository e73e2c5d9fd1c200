-- ===== src/Ports/Groups.antt =====
-- The groups that `parsePortSpecs` of project/network_acl.go makes of the port specifications.
use incus_compose.Prelude.{
  ◌≡◌, ◌≢◌, refl, sym, ap, ◌∙◌, subst, ◌⊎◌, inl, inr, Bool, true, false, not, none, some, String,
  List, [], ◌∷◌, ◌++◌, map, str_eq, str_eq_iff, if◌then◌else◌, if_split, if_both, sum_split, In-map,
  All, All-append, In, In-append_cases, Bool-cases,
}
use incus_compose.Ports.{
  Protocol, tcp, udp, icmp4, icmp6, protocol_text, Refusal, only_wildcard, invalid_port, meaning,
  Reading, same, contains, takes_ports, noted, read_meaning, read_all, Group, group_of,
  nothing_read, parse_port_specs, validate_port_or_range, join,
}
use incus_compose.Ports.Split.{join-valid}

-- One of the specifications asks for every port of the protocol.
abbrev pub Starred : List String → Protocol → Type 0
Starred specs p = (spec : String) × In spec specs × (meaning spec ≡ inl ("*", p))

abbrev pub IsValid : String → Type 0
IsValid ports = validate_port_or_range ports ≡ true

-- What is known of a protocol: a wildcard was asked for, its ports are valid, and one of the two is
-- there if the protocol was named.
record Known (specs : List String) (r : Reading) (p : Protocol) : Type 0 where
  pub starred : r.wildcard p ≡ true → Starred specs p
  pub valid : All IsValid (r.by_proto p)
  pub named : In p r.order → r.wildcard p ≡ true ⊎ (r.by_proto p ≢ [])

same_eq : (p q : Protocol) → same p q ≡ true → p ≡ q
same_eq tcp tcp h = refl
same_eq tcp udp h = absurd cc
same_eq tcp icmp4 h = absurd cc
same_eq tcp icmp6 h = absurd cc
same_eq udp tcp h = absurd cc
same_eq udp udp h = refl
same_eq udp icmp4 h = absurd cc
same_eq udp icmp6 h = absurd cc
same_eq icmp4 tcp h = absurd cc
same_eq icmp4 udp h = absurd cc
same_eq icmp4 icmp4 h = refl
same_eq icmp4 icmp6 h = absurd cc
same_eq icmp6 tcp h = absurd cc
same_eq icmp6 udp h = absurd cc
same_eq icmp6 icmp4 h = absurd cc
same_eq icmp6 icmp6 h = refl

same_refl : (p : Protocol) → same p p ≡ true
same_refl p = (str_eq_iff (protocol_text p) (protocol_text p)).1 refl

snoc-nonempty : {A : Type 0} (xs : List A) (x : A) → xs ++ x ∷ [] ≢ []
snoc-nonempty [] x e = absurd cc
snoc-nonempty (y ∷ ys) x e = absurd cc

In-noted : (p q : Protocol) (order : List Protocol) → In q (noted p order) → In q order ⊎ (p ≡ q)
In-noted p q order =
    if_both (λ l. In q l → In q order ⊎ (p ≡ q)) (contains order p) order (order ++ p ∷ [])
      (λ h. inl h)
      (λ h. elim (In-append_cases q order (p ∷ []) h) [
        | inl old ↦ inl old
        | inr (inl this) ↦ inr this
        | inr (inr none_left) ↦ absurd none_left
      ])

module _ (specs : List String) where
  -- A reading that is known for every protocol, or a refusal.
  abbrev Fine : Reading ⊎ Refusal → Type 0
  Fine (inl r) = (p : Protocol) → Known specs r p
  Fine (inr why) = Unit

  starred-Known :
      (spec : String) (p : Protocol) (r : Reading)
      → In spec specs
      → meaning spec ≡ inl ("*", p)
      → Fine (inl r)
      → Fine (
          inl (record r {
            order = noted p r.order;
            wildcard = λ q. if same p q then true else r.wildcard q;
          }))
  starred-Known spec p r here means known q = record {
    starred = λ h. elim (Bool-cases (same p q)) [
      | inl this ↦ (spec, here, subst (λ x. meaning spec ≡ inl ("*", x)) (same_eq p q this) means)
      | inr other ↦ (known q).starred (sym (ap (λ b. if b then true else r.wildcard q) other) ∙ h)
    ];
    valid = (known q).valid;
    named = λ h. elim (In-noted p q r.order h) [
      | inl old ↦ elim ((known q).named old) [
        | inl wild ↦ inl (if_both (λ b. b ≡ true) (same p q) true (r.wildcard q) refl wild)
        | inr some_ports ↦ inr some_ports
      ]
      | inr this ↦
          inl (ap (λ b. if b then true else r.wildcard q) (ap (same p) (sym this) ∙ same_refl p))
    ];
  }

  longer-Known :
      (port : String) (p : Protocol) (r : Reading)
      → IsValid port
      → Fine (inl r)
      → Fine (
          inl (record r {
            order = noted p r.order;
            by_proto = λ q. if same p q then r.by_proto q ++ port ∷ [] else r.by_proto q;
          }))
  longer-Known port p r is_valid known q =
      let longer = r.by_proto q ++ port ∷ [] in
      record {
        starred = (known q).starred;
        valid =
            if_both (All IsValid) (same p q) longer (r.by_proto q)
              (All-append IsValid (r.by_proto q) (port ∷ []) (known q).valid (is_valid, tt))
              (known q).valid;
        named = λ h. elim (In-noted p q r.order h) [
          | inl old ↦ elim ((known q).named old) [
            | inl wild ↦ inl wild
            | inr some_ports ↦ inr (
                if_both (λ l. l ≢ []) (same p q) longer (r.by_proto q)
                  (snoc-nonempty (r.by_proto q) port) some_ports)
          ]
          | inr this ↦ inr (
              subst (λ b. (if b then longer else r.by_proto q) ≢ [])
                (sym (ap (same p) (sym this) ∙ same_refl p)) (snoc-nonempty (r.by_proto q) port))
        ];
      }

  nothing-Known : Fine (inl nothing_read)
  nothing-Known p = record { starred = λ h. absurd cc; valid = tt; named = λ h. absurd h }

  read_meaning-Fine :
      (spec port : String) (p : Protocol) (r : Reading)
      → In spec specs
      → meaning spec ≡ inl (port, p)
      → Fine (inl r)
      → Fine (read_meaning port p r)
  unfolding read_meaning
  read_meaning-Fine spec port p r here means known =
      let starred = record r {
        order = noted p r.order;
        wildcard = λ q. if same p q then true else r.wildcard q;
      } in
      let longer = record r {
        order = noted p r.order;
        by_proto = λ q. if same p q then r.by_proto q ++ port ∷ [] else r.by_proto q;
      } in
      let ported : Reading ⊎ Refusal =
        if validate_port_or_range port then inl longer else inr invalid_port in
      if_split Fine (str_eq port "*") (inl starred)
        (if not (takes_ports p) then inr only_wildcard else ported)
        (λ star.
          starred-Known spec p r here
            (subst (λ t. meaning spec ≡ inl (t, p)) ((str_eq_iff port "*").0 star) means) known)
        (λ no_star. if_both Fine (not (takes_ports p)) (inr only_wildcard) ported tt (
          if_split Fine (validate_port_or_range port) (inl longer) (inr invalid_port)
            (λ is_valid. longer-Known port p r is_valid known) (λ refused. tt)))

  read_all-Fine :
      (raws : List String) (r : Reading)
      → ((spec : String) → In spec raws → In spec specs)
      → Fine (inl r)
      → Fine (read_all raws r)
  unfolding read_all
  read_all-Fine [] r within known = known
  read_all-Fine (raw ∷ raws) r within known =
      sum_split Fine (meaning raw)
        (λ said. elim (read_meaning said.0 said.1 r) [
          | inl next ↦ read_all raws next
          | inr why ↦ inr why
        ])
        (λ why. inr why)
        (λ said means.
          sum_split Fine (read_meaning said.0 said.1 r) (λ next. read_all raws next)
            (λ why. inr why)
            (λ next e.
              read_all-Fine raws next (λ spec h. within spec (inr h))
                (subst Fine e
                  (read_meaning-Fine raw said.0 said.1 r (within raw (inl refl)) means known)))
            (λ why e. tt))
        (λ why e. tt)

  joined-IsValid : (parts : List String) → All IsValid parts → parts ≢ [] → IsValid (join parts)
  joined-IsValid [] valid some_part = absurd (some_part refl)
  joined-IsValid (part ∷ parts) valid some_part = join-valid part parts valid

  narrowed : {b : Bool} {parts : List String} → b ≡ false → b ≡ true ⊎ (parts ≢ []) → parts ≢ []
  narrowed narrow (inl wild) = absurd (cc (sym narrow ∙ wild))
  narrowed narrow (inr some_part) = some_part

  group-IsValid :
      (r : Reading) (p : Protocol)
      → Known specs r p
      → In p r.order
      → IsValid (group_of r p).ports ⊎ (((group_of r p).ports ≡ "") × Starred specs p)
  unfolding group_of
  group-IsValid r p known here = elim (Bool-cases (r.wildcard p)) [
    | inl wild ↦ inr (ap (λ b. if b then "" else join (r.by_proto p)) wild, known.starred wild)
    | inr narrow ↦
        let valid =
          joined-IsValid (r.by_proto p) known.valid (narrowed narrow (known.named here)) in
        inl (subst (λ b. IsValid (if b then "" else join (r.by_proto p))) (sym narrow) valid)
  ]

-- Where port specifications are accepted, the group of a protocol either has ports that pass
-- validatePortOrRange as a whole, or it has none and one of the specifications asks for every port
-- of that protocol, so no protocol is opened by accident.
pub parse_port_specs-IsValid :
    (specs : List String) (groups : List Group) (g : Group) (p : Protocol)
    → parse_port_specs specs ≡ inl groups
    → In g groups
    → g.protocol ≡ some p
    → IsValid g.ports ⊎ ((g.ports ≡ "") × Starred specs p)
unfolding parse_port_specs group_of
parse_port_specs-IsValid [] groups g p e here named =
    let only : record { protocol = none; ports = "" } ∷ [] ≡ groups = cc e in
    elim (subst (In g) (sym only) here) [
      | inl it ↦ absurd (cc (ap (λ x. x.protocol) it ∙ named))
      | inr none_left ↦ absurd none_left
    ]
parse_port_specs-IsValid (raw ∷ raws) groups g p e here named =
    let specs = raw ∷ raws in
    let Ends : (List Group) ⊎ Refusal → Type 0 =
      λ result. result ≡ inl groups → IsValid g.ports ⊎ ((g.ports ≡ "") × Starred specs p) in
    sum_split Ends (read_all specs nothing_read) (λ r. inl (map (group_of r) r.order))
      (λ why. inr why)
      (λ r read e'.
        let made : map (group_of r) r.order ≡ groups = cc e' in
        let (q, in_order, it) = In-map (group_of r) g r.order (subst (In g) (sym made) here) in
        let both : some q ≡ some p = ap (λ x. x.protocol) it ∙ named in
        let known =
          subst (Fine specs) read
            (read_all-Fine specs specs nothing_read (λ spec h. h) (nothing-Known specs)) in
        subst (λ x. IsValid x.ports ⊎ ((x.ports ≡ "") × Starred specs p)) it
          (subst
            (λ y. IsValid (group_of r q).ports ⊎ (((group_of r q).ports ≡ "") × Starred specs y))
            (cc both) (group-IsValid specs r q (known q) in_order)))
      (λ why read e'. absurd cc) e
