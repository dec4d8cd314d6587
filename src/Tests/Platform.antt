-- ===== src/Tests/Platform.antt =====
-- Small tables in the place of the parsers that the validators call.
use network_services_operato.Common.{
  ℕ, String, false, none, [], ◌∷◌, ◌==◌, if◌then◌else◌, string_eq, nat_eq,
}
use network_services_operato.Common.Int.{pos}
use network_services_operato.Common.Map.{lookup}
use network_services_operato.Validation.Errors.{invalid, Url, Platform}

abbrev pub plain_url : String → String → Url
plain_url scheme host = record {
  scheme = scheme;
  user = none;
  hostname = host;
  path = "";
  raw_query = "";
  fragment = "";
}

-- Addresses: 1 is of the loopback, 2 of the link, 9 neither.
instance unfoldable pub sample_platform : Platform
unfolding lookup
sample_platform = record {
  Ip = ℕ;
  parse_ip = λ s. lookup s (("127.0.0.1", 1) ∷ ("169.254.169.254", 2) ∷ ("203.0.113.9", 9) ∷ []);
  is_unspecified = λ ip. ip == 0;
  is_loopback = λ ip. ip == 1;
  is_link_local_unicast = λ ip. ip == 2;
  is_link_local_multicast = λ ip. false;
  parse_url = λ s. lookup s (
      ("https://id.example.com", plain_url "https" "id.example.com")
      ∷ ("http://127.0.0.1:8080", plain_url "http" "127.0.0.1")
      ∷ []);
  parse_duration = λ s. lookup s (("10s", pos 10000000000) ∷ []);
  fqdn_faults = λ s. if s == "localhost" then invalid ∷ [] else [];
  label_faults = λ s. if s == "Not_a_label" then "must be lower case" ∷ [] else [];
}
