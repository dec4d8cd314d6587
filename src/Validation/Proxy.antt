-- ===== src/Validation/Proxy.antt =====
-- internal/validation/httpproxy_validation.go
use network_services_operato.Common.{
  ℕ, suc, String, Bool, true, not, ◌&&◌, any, ltb, length, ◌==◌, string_eq, if◌then◌else◌, Option,
  none, some, List, [], ◌∷◌, map,
}
use network_services_operato.Common.Member.{has}
use network_services_operato.Validation.Errors.{
  required, invalid, not_supported, duplicate, child, index, key, FieldPath, fault, Errors, Url,
  Platform, when, is_some, each, given, either, fqdn_errors, ◌+e◌,
}
use network_services_operato.Validation.Filters.{
  RouteFilter, validate_filters, supported_rule_filters, supported_backend_ref_filters,
}

pub record BackendTls : Type 0 where
  pub hostname : Option String

-- A connector is its reference's name.
pub record ProxyBackend : Type 0 where
  pub endpoint : String
  pub connector : Option String
  pub tls : Option BackendTls
  pub filters : List RouteFilter

pub record ProxyRule : Type 0 where
  pub filters : List RouteFilter
  pub backends : List ProxyBackend

pub record HttpProxy : Type 0 where
  pub name : String
  pub hostnames : List String
  pub rules : List ProxyRule

abbrev pub is_blank : Option String → Bool
is_blank none = true
is_blank (some name) = name == ""

-- backend.TLS == nil || backend.TLS.Hostname == nil || *backend.TLS.Hostname == ""
abbrev pub no_tls_hostname : Option BackendTls → Bool
no_tls_hostname none = true
no_tls_hostname (some tls) = is_blank tls.hostname

module _ ⦃p : Platform⦄ where
  -- A loop over validation.IsDNS1123Label(name)
  unfoldable pub label_errors : FieldPath → String → Errors
  label_errors path name = map (λ msg. fault invalid path) (p.label_faults name)

  -- The loop over the host names, with the set of those before.
  unfoldable pub hostname_errors : FieldPath → List String → ℕ → List String → Errors
  hostname_errors path seen i [] = []
  hostname_errors path seen i (name ∷ names) =
      fqdn_errors (child "hostname" ∷ index i ∷ path) name
      +e when (has seen name) (fault duplicate (child "hostname" ∷ index i ∷ path))
      +e hostname_errors path (if has seen name then seen else name ∷ seen) (suc i) names

  unfoldable pub target_ip_errors : Bool → FieldPath → p.Ip → Errors
  target_ip_errors has_connector path ip =
      when (p.is_unspecified ip) (fault invalid path)
      +e when (p.is_loopback ip && not has_connector) (fault invalid path)
      +e when (p.is_link_local_unicast ip) (fault invalid path)
      +e when (p.is_link_local_multicast ip) (fault invalid path)

  -- A connector may lead to the host it runs on.
  unfoldable pub target_name_errors : Bool → FieldPath → String → Errors
  target_name_errors true path host = if host == "localhost" then [] else fqdn_errors path host
  target_name_errors _ path host = fqdn_errors path host

  -- The part for an endpoint that url.Parse reads.
  unfoldable pub endpoint_errors : ProxyBackend → FieldPath → Url → Errors
  endpoint_errors backend path u =
      let endpoint = child "endpoint" ∷ path in
      let ip = p.parse_ip u.hostname in
      let has_connector = is_some backend.connector in
      when (not (u.scheme == "http") && not (u.scheme == "https"))
        (fault not_supported (key "scheme" ∷ endpoint))
      +e when (is_some u.user) (fault invalid (key "userinfo" ∷ endpoint))
      +e either (target_ip_errors has_connector (key "host" ∷ endpoint))
          (target_name_errors has_connector (key "host" ∷ endpoint) u.hostname) ip
      +e when ((u.scheme == "https") && is_some ip && no_tls_hostname backend.tls)
          (fault required (child "hostname" ∷ child "tls" ∷ path))
      +e when (not (u.path == "")) (fault invalid (key "path" ∷ endpoint))
      +e when (not (u.raw_query == "")) (fault invalid (key "query" ∷ endpoint))
      +e when (not (u.fragment == "")) (fault invalid (key "fragment" ∷ endpoint))

  unfoldable pub connector_errors : FieldPath → String → Errors
  connector_errors path name =
      if name == "" then fault required path ∷ [] else label_errors path name

  unfoldable pub validate_proxy_backend : ProxyBackend → FieldPath → Errors
  validate_proxy_backend backend path =
      either (endpoint_errors backend path) (fault invalid (child "endpoint" ∷ path) ∷ [])
        (p.parse_url backend.endpoint)
      +e given (connector_errors (child "name" ∷ child "connector" ∷ path)) backend.connector
      +e validate_filters backend.filters supported_backend_ref_filters (child "filters" ∷ path)

  unfoldable pub validate_rule_backends : ProxyRule → FieldPath → Errors
  validate_rule_backends rule path =
      when
        (not (ltb 0 (length rule.backends))
          && not (any (λ filter. filter.type == "RequestRedirect") rule.filters))
        (fault required path)
      +e each (λ i backend. validate_proxy_backend backend (index i ∷ path)) 0 rule.backends

  unfoldable pub validate_proxy_rule : ProxyRule → FieldPath → Errors
  validate_proxy_rule rule path =
      validate_filters rule.filters supported_rule_filters (child "filters" ∷ path)
      +e validate_rule_backends rule (child "backends" ∷ path)

  unfoldable pub validate_proxy_rules : HttpProxy → FieldPath → Errors
  validate_proxy_rules proxy path =
      each (λ i rule. validate_proxy_rule rule (index i ∷ path)) 0 proxy.rules

  unfoldable pub validate_http_proxy : HttpProxy → Errors
  validate_http_proxy proxy =
      hostname_errors (child "hostnames" ∷ child "spec" ∷ []) [] 0 proxy.hostnames
      +e label_errors (child "name" ∷ child "metadata" ∷ []) proxy.name
      +e validate_proxy_rules proxy (child "rules" ∷ child "spec" ∷ [])
