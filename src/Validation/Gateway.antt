-- ===== src/Validation/Gateway.antt =====
-- internal/validation/gateway_validation.go
use network_services_operato.Common.{
  ℕ, String, Bool, not, ◌&&◌, any, ltb, length, ◌==◌, string_eq, nat_eq, if◌then◌else◌, Option,
  List, [], ◌∷◌,
}
use network_services_operato.Common.Map.{lookup}
use network_services_operato.Gateway.Listeners.{
  AllowedRoutes, TlsConfig, Listener, is_default_listener,
}
use network_services_operato.Common.Member.{has}
use network_services_operato.Validation.Errors.{
  required, invalid, not_supported, forbidden, too_many, child, index, key, FieldPath, fault,
  Errors, Platform, when, is_some, deref, each, given, either, fqdn_errors, ◌+e◌,
}

-- An address of the status: its type and its value.
pub record Address : Type 0 where
  pub type : Option String
  pub value : String

-- The addresses and infrastructure of the spec, and its TLS, are only counted or tested for.
pub record Gateway : Type 0 where
  pub class_name : String
  pub listeners : List Listener
  pub addresses : List String
  pub has_infrastructure : Bool
  pub has_tls : Bool
  pub status_addresses : List Address

-- GatewayDNSAddressFunc is a function that the caller gives.
pub record GatewayOptions : Type 0 where
  pub permitted_tls_options : List (String × List String)
  pub valid_port_numbers : List ℕ
  pub valid_protocol_types : List (ℕ × List String)
  pub dns_address : Gateway → String
  pub skip_hostname_fqdn : Bool

unfoldable pub validate_allowed_routes : FieldPath → AllowedRoutes → Errors
validate_allowed_routes path routes =
    given
      (λ from.
        when (not (from == "Same"))
          (fault not_supported (child "from" ∷ child "namespaces" ∷ path)))
      routes.namespaces_from
    +e when (ltb 0 (length routes.kinds)) (fault too_many (child "kinds" ∷ path))

-- The check of one option: the permitted values, none for any value.
unfoldable pub option_errors : GatewayOptions → FieldPath → String × String → Errors
option_errors opts path (k, v) =
    either
      (λ values.
        when (ltb 0 (length values) && not (has values v)) (fault not_supported (key k ∷ path)))
      (fault forbidden (key k ∷ path) ∷ []) (lookup k opts.permitted_tls_options)

unfoldable pub tls_errors : GatewayOptions → FieldPath → TlsConfig → Errors
tls_errors opts path tls =
    when (not (ltb 0 (length tls.options))) (fault required (child "options" ∷ path))
    +e when (not (deref tls.mode "Terminate" == "Terminate")) (fault invalid (child "mode" ∷ path))
    +e when (ltb 0 (length tls.certificate_refs)) (fault forbidden (child "certificateRefs" ∷ path))
    +e each (λ i option. option_errors opts (child "options" ∷ path) option) 0 tls.options

unfoldable pub validate_gateway_tls_config : GatewayOptions → FieldPath → Option TlsConfig → Errors
validate_gateway_tls_config opts path =
    either (tls_errors opts path) (fault required (child "options" ∷ path) ∷ [])

-- The name is among the host names that the status lists.
abbrev pub found_in_status : Gateway → String → Bool
found_in_status gateway hostname =
    any (λ addr. (deref addr.type "" == "Hostname") && (addr.value == hostname))
      gateway.status_addresses

unfoldable pub port_errors : GatewayOptions → FieldPath → Listener → Errors
port_errors opts path l =
    if not (any (λ port. port == l.port) opts.valid_port_numbers)
    then fault not_supported (child "port" ∷ path) ∷ []
    else when (not (has (deref (lookup l.port opts.valid_protocol_types) []) l.protocol))
        (fault not_supported (child "protocol" ∷ path))

module _ ⦃p : Platform⦄ where
  unfoldable pub default_hostname_errors : Gateway → GatewayOptions → FieldPath → String → Errors
  default_hostname_errors gateway opts path hostname =
      when (not (hostname == opts.dns_address gateway) && not (found_in_status gateway hostname))
        (fault not_supported (child "hostname" ∷ path))

  unfoldable pub custom_hostname_errors : GatewayOptions → FieldPath → String → Errors
  custom_hostname_errors opts path hostname =
      if opts.skip_hostname_fqdn then [] else fqdn_errors (child "hostname" ∷ path) hostname

  unfoldable pub listener_hostname_errors : Gateway → GatewayOptions → FieldPath → Listener → Errors
  listener_hostname_errors gateway opts path l =
      if is_default_listener l
      then given (default_hostname_errors gateway opts path) l.hostname
      else either (custom_hostname_errors opts path) (fault required (child "hostname" ∷ path) ∷ [])
          l.hostname

  unfoldable pub listener_errors : Gateway → GatewayOptions → FieldPath → Listener → Errors
  listener_errors gateway opts path l =
      listener_hostname_errors gateway opts path l
      +e port_errors opts path l
      +e (if l.protocol == "HTTPS"
          then validate_gateway_tls_config opts (child "tls" ∷ path) l.tls
          else [])
      +e given (validate_allowed_routes (child "allowedRoutes" ∷ path)) l.allowed_routes

  unfoldable pub validate_listeners : Gateway → FieldPath → GatewayOptions → Errors
  validate_listeners gateway path opts =
      each (λ i l. listener_errors gateway opts (index i ∷ path) l) 0 gateway.listeners

  unfoldable pub validate_gateway : Gateway → GatewayOptions → Errors
  validate_gateway gateway opts =
      when (gateway.class_name == "")
        (fault required (child "gatewayClassName" ∷ child "spec" ∷ []))
      +e validate_listeners gateway (child "listeners" ∷ child "spec" ∷ []) opts
      +e when (ltb 0 (length gateway.addresses))
          (fault too_many (child "addresses" ∷ child "spec" ∷ []))
      +e when gateway.has_infrastructure
          (fault forbidden (child "infrastructure" ∷ child "spec" ∷ []))
      +e when gateway.has_tls (fault forbidden (child "tls" ∷ child "spec" ∷ []))

-- ValidateTenantListenerHostnames, on the gateway's listeners
unfoldable pub validate_tenant_listener_hostnames : List Listener → Errors
validate_tenant_listener_hostnames =
    each
      (λ i l.
        if is_default_listener l
        then []
        else when (not (is_some l.hostname))
            (fault required (child "hostname" ∷ index i ∷ child "listeners" ∷ child "spec" ∷ [])))
      0
