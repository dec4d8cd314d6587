-- ===== src/Validation/Network.antt =====
-- internal/validation/network.go
use network_services_operato.Common.{
  String, ◌≡◌, ◌≢◌, ◌↔◌, ◌⊎◌, false, not, ◌==◌, string_eq, none, some, [], ◌∷◌, if◌then◌else◌,
}
use network_services_operato.Validation.Errors.{
  required, invalid, not_supported, key, FieldPath, fault, Errors, Url, Platform, when, either,
  Either, is_some, fqdn_errors, ◌+e◌, ◌⋀◌,
}
use network_services_operato.Validation.Accept.{
  either_iff, present_iff, unless_iff, exempt_iff, when_iff, equal_iff, absent_iff, ◌⊗◌,
  map_nil_iff,
}

module _ ⦃p : Platform⦄ where
  unfoldable pub ip_errors : FieldPath → p.Ip → Errors
  ip_errors path ip =
      when (p.is_unspecified ip) (fault invalid path)
      +e when (p.is_loopback ip) (fault invalid path)
      +e when (p.is_link_local_unicast ip) (fault invalid path)
      +e when (p.is_link_local_multicast ip) (fault invalid path)

  unfoldable pub validate_external_host : FieldPath → String → Errors
  validate_external_host path host =
      either (ip_errors path) (fqdn_errors path host) (p.parse_ip host)

  unfoldable pub url_errors : FieldPath → Url → Errors
  url_errors path u =
      when (not (u.scheme == "https")) (fault not_supported (key "scheme" ∷ path))
      +e when (is_some u.user) (fault invalid (key "userinfo" ∷ path))
      +e (if u.hostname == ""
          then fault required (key "host" ∷ path) ∷ []
          else validate_external_host (key "host" ∷ path) u.hostname)

  unfoldable pub validate_external_https_url : FieldPath → String → Errors
  validate_external_https_url path raw =
      if raw == "" then [] else either (url_errors path) (fault invalid path ∷ []) (p.parse_url raw)

  -- An address that is not one of the host, the link, or of none.
  abbrev pub IsRoutable : p.Ip → Type 0
  IsRoutable ip =
      (p.is_unspecified ip ≡ false)
      ⋀ (p.is_loopback ip ≡ false)
      ⋀ (p.is_link_local_unicast ip ≡ false)
      ⋀ (p.is_link_local_multicast ip ≡ false)

  abbrev pub IsFqdn : String → Type 0
  IsFqdn name = p.fqdn_faults name ≡ []

  -- A host that validateExternalHost lets pass: an address that is neither unspecified nor of the
  -- loopback or the link, or a fully qualified name. Private addresses and names of services that are
  -- written out in full pass.
  abbrev pub IsExternal : String → Type 0
  IsExternal host = Either IsRoutable (IsFqdn host) (p.parse_ip host)

  abbrev pub IsExternalHttps : Url → Type 0
  IsExternalHttps u =
      (u.scheme ≡ "https") ⋀ (u.user ≡ none) ⋀ (u.hostname ≢ "") ⋀ IsExternal u.hostname

  abbrev pub IsSafeUrl : String → Type 0
  IsSafeUrl raw = (raw ≡ "") ⊎ ((u : Url) × (p.parse_url raw ≡ some u) × IsExternalHttps u)

  pub fqdn_errors_iff :
      (path : FieldPath) (name : String) → (fqdn_errors path name ≡ []) ↔ IsFqdn name
  unfolding fqdn_errors
  fqdn_errors_iff path name = map_nil_iff _ (p.fqdn_faults name)

  pub ip_iff : (path : FieldPath) (ip : p.Ip) → (ip_errors path ip ≡ []) ↔ IsRoutable ip
  unfolding ip_errors
  ip_iff path ip = when_iff _ _ ⊗ when_iff _ _ ⊗ when_iff _ _ ⊗ when_iff _ _

  pub host_iff :
      (path : FieldPath) (host : String) → (validate_external_host path host ≡ []) ↔ IsExternal host
  unfolding validate_external_host
  host_iff path host = either_iff (ip_iff path) (fqdn_errors_iff path host) (p.parse_ip host)

  parsed_iff : (path : FieldPath) (u : Url) → (url_errors path u ≡ []) ↔ IsExternalHttps u
  unfolding url_errors
  parsed_iff path u =
      equal_iff _ _ _ ⊗ absent_iff _ _ ⊗ unless_iff u.hostname "" _ (host_iff _ u.hostname)

  pub url_iff :
      (path : FieldPath) (raw : String)
      → (validate_external_https_url path raw ≡ []) ↔ IsSafeUrl raw
  unfolding validate_external_https_url
  url_iff path raw = exempt_iff raw "" (present_iff _ (parsed_iff path) (p.parse_url raw))
