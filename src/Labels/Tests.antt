-- ===== src/Labels/Tests.antt =====
-- The labels of one instance (cmd/ic-dns/dns/labels.go).
use incus_compose.Prelude.{◌≡◌, refl, ◌⊎◌, true, false, some, String, [], ◌∷◌}
use incus_compose.Prelude.Dict.{Dict, lookup, insert}
use incus_compose.Labels.{
  kind_of, is_project_side, is_instance_side, from_instance, from_project, merged, labels, meta,
}
use incus_compose.Labels.Merged.{SetByProject, SetByInstance, Unset, merged-set}

abbrev web_config : Dict String
web_config =
    ("user.label.dns.zone", "one.example")
    ∷ ("user.label.dns.ns", "ns.example")
    ∷ ("user.label.incus-compose.service", " web ")
    ∷ []

abbrev project_config : Dict String
project_config = ("dns.zone", "two.example") ∷ ("dns.service", "all") ∷ []

merged_zone : lookup "dns.zone" (merged web_config project_config) ≡ some "two.example"
unfolding merged from_instance from_project kind_of lookup insert
merged_zone = refl

meta_test : meta web_config project_config ≡ ("zone", "two.example") ∷ ("service", "web") ∷ []
unfolding meta labels merged from_instance from_project kind_of lookup insert
meta_test = refl

merged-set_example :
    ((is_instance_side (kind_of "dns.zone") ≡ false)
      × SetByProject project_config "dns.zone" "two.example")
    ⊎ ((is_project_side (kind_of "dns.zone") ≡ false)
        × SetByInstance web_config "dns.zone" "two.example"
        × ((is_instance_side (kind_of "dns.zone") ≡ true) ⊎ Unset project_config "dns.zone"))
merged-set_example = merged-set web_config project_config "dns.zone" "two.example" merged_zone
