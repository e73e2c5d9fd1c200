-- ===== src/Enricher/Reader/Tests.antt =====
-- Reads of an instance (ievent/enricher/reads.go).
use incus_compose.Prelude.{pos, ◌≡◌, refl, inl, inr, true, false, none, some, String, [], ◌∷◌}
use incus_compose.Prelude.Dict.{lookup}
use incus_compose.Enricher.Reader.{
  Instance, State, running, has_nic_devices, is_ipv4, has_addresses, is_vm_without_agent, expired,
  failed, ticked, landed, poll, settled_at_once, outcome, got, incus_reader,
}
use incus_compose.Enricher.Reader.Settled.{Ended, incus_reader-Ended}

abbrev web : Instance
web = record {
  instance_type = "container";
  status = running;
  devices = ("eth0", ("type", "nic") ∷ []) ∷ [];
  expanded_devices = [];
  config = [];
  expanded_config = [];
}

abbrev with_address : String → State
with_address text = record {
  status = running;
  network =
      (
        "lo",
        record {
          interface_type = "loopback";
          addresses = record { scope = "global"; address = "10.0.0.1" } ∷ [];
        },
      )
      ∷ (
        "eth0",
        record {
          interface_type = "broadcast";
          addresses = record { scope = "global"; address = text } ∷ [];
        },
      )
      ∷ [];
  processes = pos 0;
}

leading_zero_test : is_ipv4 "10.0.0.01" 0 none ≡ false
unfolding is_ipv4
leading_zero_test = refl

read_web :
    incus_reader
      (λ inst. true)
      true
      false
      (got web)
      (some (with_address "fe80::1"))
      (failed false ∷ ticked (with_address "10.1.2.3") none ∷ expired ∷ [])
    ≡ outcome (landed web (with_address "10.1.2.3"))
unfolding incus_reader poll settled_at_once has_nic_devices has_addresses is_ipv4
    is_vm_without_agent lookup
read_web = refl

incus_reader-Ended_example : Ended false true web (landed web (with_address "10.1.2.3"))
incus_reader-Ended_example =
    incus_reader-Ended (λ inst. true) true false web (with_address "fe80::1")
      (failed false ∷ ticked (with_address "10.1.2.3") none ∷ expired ∷ [])
      (landed web (with_address "10.1.2.3")) (inr (inr (inl refl))) read_web
