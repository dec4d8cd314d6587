-- ===== src/Tests/Gateways.antt =====
-- The validator of gateways and the default listeners at work (internal/validation,
-- internal/util/gateway).
use network_services_operato.Common.{
  ℕ, String, ◌≡◌, refl, inl, inr, false, Option, none, some, List, [], ◌∷◌, All, Distinct,
  string_eq, nat_eq, arith,
}
use network_services_operato.Common.Map.{lookup}
use network_services_operato.Gateway.Listeners.{
  Listener, https_listener, http_listener, set_default_listeners,
}
use network_services_operato.Gateway.ListenersSafe.{names}
use network_services_operato.Validation.Errors.{
  Kind, invalid, required, forbidden, not_supported, child, index, key, fault, Url, Platform,
}
use network_services_operato.Common.Member.{differs_iff}
use network_services_operato.Validation.Gateway.{
  Gateway, GatewayOptions, validate_gateway, validate_tenant_listener_hostnames,
}
use network_services_operato.Validation.GatewaySafe.{validate_gateway-accepts_iff}
use network_services_operato.Validation.GatewayDefaults.{IsApart, set_default_listeners-AreApart}
use network_services_operato.Tests.Platform.{sample_platform}

abbrev sample_listener : String → String → Option String → ℕ → Listener
sample_listener name protocol hostname port = record {
  name = name;
  hostname = hostname;
  port = port;
  protocol = protocol;
  tls = none;
  allowed_routes = none;
}

abbrev sample_gateway : Option String → Gateway
sample_gateway hostname = record {
  class_name = "datum";
  listeners = sample_listener "web" "HTTP" hostname 80 ∷ [];
  addresses = [];
  has_infrastructure = false;
  has_tls = false;
  status_addresses = [];
}

abbrev sample_options : GatewayOptions
sample_options = record {
  permitted_tls_options = [];
  valid_port_numbers = 80 ∷ 443 ∷ [];
  valid_protocol_types = (80, "HTTP" ∷ []) ∷ (443, "HTTPS" ∷ []) ∷ [];
  dns_address = λ gateway. "uid.example.net";
  skip_hostname_fqdn = false;
}

hostname_is_required :
    validate_gateway (sample_gateway none) sample_options
    ≡ fault required (child "hostname" ∷ index 0 ∷ child "listeners" ∷ child "spec" ∷ []) ∷ []
unfolding validate_gateway network_services_operato.Validation.Errors.when
    network_services_operato.Validation.Gateway.validate_listeners
    network_services_operato.Validation.Errors.each
    network_services_operato.Validation.Gateway.listener_errors
    network_services_operato.Validation.Gateway.listener_hostname_errors
    network_services_operato.Validation.Errors.either
    network_services_operato.Validation.Gateway.port_errors lookup
    network_services_operato.Validation.Errors.given
hostname_is_required = refl

validate_gateway-accepts_iff_example :
    validate_gateway (sample_gateway (some "web.example.com")) sample_options ≡ []
unfolding sample_platform
validate_gateway-accepts_iff_example =
    (validate_gateway-accepts_iff (sample_gateway (some "web.example.com")) sample_options).1 (
      (differs_iff "datum" "").0 refl,
      (
        (
          (
            inr (refl, ("web.example.com", refl, inr (refl, refl))),
            ((refl, (0, refl)), (inl ((differs_iff "HTTP" "HTTPS").0 refl), tt)),
          ),
          tt,
        ),
        (omega arith, (refl, refl)),
      ),
    )

abbrev tenant_listeners : List Listener
tenant_listeners =
    sample_listener "web" "HTTP" (some "web.example.com") 80
    ∷ sample_listener "default-http" "HTTP" none 80
    ∷ []

defaults_are_added :
    names (set_default_listeners tenant_listeners [])
    ≡ "web" ∷ "default-http" ∷ "default-https" ∷ []
unfolding set_default_listeners network_services_operato.Gateway.Listeners.set_listener
    http_listener https_listener
defaults_are_added = refl

set_default_listeners-AreApart_example :
    Distinct (names (set_default_listeners tenant_listeners []))
    × All (IsApart []) (set_default_listeners tenant_listeners [])
unfolding validate_tenant_listener_hostnames network_services_operato.Validation.Errors.each
    network_services_operato.Validation.Errors.when
set_default_listeners-AreApart_example =
    set_default_listeners-AreApart tenant_listeners []
      (((differs_iff "web" "default-http").0 refl, tt), (tt, tt)) refl
