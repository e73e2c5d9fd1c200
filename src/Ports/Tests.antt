-- ===== src/Ports/Tests.antt =====
-- Runs of the port specifications (project/network_acl.go).
use incus_compose.Prelude.{◌≡◌, refl, ◌⊎◌, inl, inr, some, String, List, [], ◌∷◌}
use incus_compose.Ports.{
  tcp, icmp4, only_wildcard, invalid_port, Group, pieces, join, digits, parse_uint16, valid_part,
  validate_port_or_range, lower_is, slashes, protocol_of, meaning, read_meaning, read_all, group_of,
  parse_port_specs,
}
use incus_compose.Ports.Groups.{IsValid, Starred, parse_port_specs-IsValid}

abbrev specs : List String
specs = "80" ∷ " 443-444 / TCP" ∷ "*/icmp4" ∷ []

abbrev web_group : Group
web_group = record { protocol = some tcp; ports = "80,443-444" }

abbrev ping_group : Group
ping_group = record { protocol = some icmp4; ports = "" }

parsed : parse_port_specs specs ≡ inl (web_group ∷ ping_group ∷ [])
unfolding pieces join digits parse_uint16 valid_part validate_port_or_range lower_is slashes
    protocol_of meaning read_meaning read_all group_of parse_port_specs
parsed = refl

reversed_test : parse_port_specs ("444-443" ∷ []) ≡ inr invalid_port
unfolding pieces join digits parse_uint16 valid_part validate_port_or_range lower_is slashes
    protocol_of meaning read_meaning read_all group_of parse_port_specs
reversed_test = refl

large_test : parse_port_specs ("65536" ∷ []) ≡ inr invalid_port
unfolding pieces join digits parse_uint16 valid_part validate_port_or_range lower_is slashes
    protocol_of meaning read_meaning read_all group_of parse_port_specs
large_test = refl

icmp_test : parse_port_specs ("80/icmp6" ∷ []) ≡ inr only_wildcard
unfolding pieces join digits parse_uint16 valid_part validate_port_or_range lower_is slashes
    protocol_of meaning read_meaning read_all group_of parse_port_specs
icmp_test = refl

parse_port_specs-IsValid_example :
    IsValid web_group.ports ⊎ ((web_group.ports ≡ "") × Starred specs tcp)
parse_port_specs-IsValid_example =
    parse_port_specs-IsValid specs (web_group ∷ ping_group ∷ []) web_group tcp parsed (inl refl)
      refl
