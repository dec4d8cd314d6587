-- ===== src/Tests/Validators.antt =====
-- The validators of backends, routes and proxies at work (internal/validation).
use network_services_operato.Common.{
  ℕ, String, ◌≡◌, refl, inl, inr, false, Option, none, some, [], ◌∷◌, string_eq, nat_eq, arith,
}
use network_services_operato.Common.Map.{lookup}
use network_services_operato.Validation.Errors.{
  Kind, invalid, required, forbidden, not_supported, child, index, key, fault, Url, Platform,
}
use network_services_operato.Common.Member.{differs_iff}
use network_services_operato.Validation.Backend.{
  BackendEndpoint, Backend, TargetRef, validate_backend, validate_backend-accepts_iff,
  validate_backend_tls_policy, validate_backend_tls_policy-accepts_iff,
}
use network_services_operato.Validation.Filters.{RouteFilter}
use network_services_operato.Validation.Route.{
  ParentRef, BackendObjectReference, BackendRef, RouteRule, HttpRoute, validate_http_route,
}
use network_services_operato.Validation.RouteSafe.{validate_http_route-accepts_iff}
use network_services_operato.Validation.Proxy.{
  ProxyBackend, ProxyRule, HttpProxy, validate_http_proxy,
}
use network_services_operato.Validation.ProxySafe.{validate_http_proxy-accepts_iff}
use network_services_operato.Tests.Platform.{plain_url, sample_platform}

abbrev endpoint_at : String → BackendEndpoint
endpoint_at ip = record { unix = none; ip = some ip; fqdn = some "api.example.com" }

abbrev backend_at : String → Backend
backend_at ip = record { type = none; endpoints = endpoint_at ip ∷ [] }

metadata_is_refused :
    validate_backend (backend_at "169.254.169.254")
    ≡ fault invalid (child "address" ∷ child "ip" ∷ index 0 ∷ child "endpoints" ∷ child "spec" ∷ [])
      ∷ []
unfolding validate_backend network_services_operato.Validation.Errors.when
    network_services_operato.Validation.Errors.each
    network_services_operato.Validation.Backend.validate_backend_endpoint
    network_services_operato.Validation.Errors.given
    network_services_operato.Validation.Network.validate_external_host
    network_services_operato.Validation.Errors.either sample_platform
    network_services_operato.Validation.Network.ip_errors
    network_services_operato.Validation.Errors.fqdn_errors
metadata_is_refused = refl

validate_backend-accepts_iff_example : validate_backend (backend_at "203.0.113.9") ≡ []
unfolding sample_platform lookup
validate_backend-accepts_iff_example =
    (validate_backend-accepts_iff (backend_at "203.0.113.9")).1
      (refl, ((refl, (inl (9, refl, (refl, (refl, (refl, refl)))), inr (refl, refl))), tt))

tls_policy_is_accepted :
    validate_backend_tls_policy (record { group = "gateway.envoyproxy.io"; kind = "Backend" } ∷ [])
    ≡ []
tls_policy_is_accepted =
    (validate_backend_tls_policy-accepts_iff
        (record { group = "gateway.envoyproxy.io"; kind = "Backend" } ∷ [])).1
      ((refl, refl), tt)

abbrev sample_parent : ParentRef
sample_parent = record { group = none; kind = some "Gateway"; namespace = some "ns" }

abbrev slice_ref : Option ℕ → BackendObjectReference
slice_ref port = record {
  group = some "discovery.k8s.io";
  kind = some "EndpointSlice";
  namespace = none;
  port = port;
}

abbrev route_to : BackendObjectReference → HttpRoute
route_to object = record {
  namespace = "ns";
  parent_refs = sample_parent ∷ [];
  hostnames = [];
  rules =
      record { filters = []; backend_refs = record { object = object; filters = [] } ∷ [] } ∷ [];
}

port_is_required :
    validate_http_route (route_to (slice_ref none)) false
    ≡ fault required
        (child "port" ∷ index 0 ∷ child "backendRefs" ∷ index 0 ∷ child "rules" ∷ child "spec" ∷ [])
      ∷ []
unfolding validate_http_route network_services_operato.Validation.Route.validate_parent_refs
    network_services_operato.Validation.Errors.each
    network_services_operato.Validation.Route.validate_parent_ref
    network_services_operato.Validation.Errors.when
    network_services_operato.Validation.Route.validate_route_hostnames
    network_services_operato.Validation.Route.validate_route_rules
    network_services_operato.Validation.Route.validate_route_rule
    network_services_operato.Validation.Filters.validate_filters
    network_services_operato.Validation.Route.validate_rule_backend_refs
    network_services_operato.Validation.Route.validate_http_backend_ref
    network_services_operato.Validation.Route.validate_backend_object_reference lookup
    network_services_operato.Validation.Errors.given
port_is_required = refl

validate_http_route-accepts_iff_example :
    validate_http_route (route_to (slice_ref (some 80))) false ≡ []
validate_http_route-accepts_iff_example =
    (validate_http_route-accepts_iff (route_to (slice_ref (some 80))) false).1 (
      ((refl, (refl, refl)), tt),
      (omega arith, ((tt, (((inl (refl, refl, λ e. absurd (cc)), tt), tt), tt)), tt)),
    )

abbrev local_backend : Option String → ProxyBackend
local_backend connector = record {
  endpoint = "http://127.0.0.1:8080";
  connector = connector;
  tls = none;
  filters = [];
}

abbrev proxy_to : ProxyBackend → HttpProxy
proxy_to backend = record {
  name = "proxy";
  hostnames = "a.example.com" ∷ "b.example.com" ∷ [];
  rules = record { filters = []; backends = backend ∷ [] } ∷ [];
}

loopback_is_refused :
    validate_http_proxy (proxy_to (local_backend none))
    ≡ fault invalid (
        key "host"
        ∷ child "endpoint"
        ∷ index 0
        ∷ child "backends"
        ∷ index 0
        ∷ child "rules"
        ∷ child "spec"
        ∷ [])
      ∷ []
unfolding validate_http_proxy network_services_operato.Validation.Proxy.hostname_errors
    network_services_operato.Validation.Errors.fqdn_errors sample_platform
    network_services_operato.Validation.Errors.when
    network_services_operato.Validation.Proxy.label_errors
    network_services_operato.Validation.Proxy.validate_proxy_rules
    network_services_operato.Validation.Errors.each
    network_services_operato.Validation.Proxy.validate_proxy_rule
    network_services_operato.Validation.Filters.validate_filters
    network_services_operato.Validation.Proxy.validate_rule_backends
    network_services_operato.Validation.Proxy.validate_proxy_backend
    network_services_operato.Validation.Errors.either
    network_services_operato.Validation.Proxy.endpoint_errors
    network_services_operato.Validation.Proxy.target_ip_errors
    network_services_operato.Validation.Errors.given
loopback_is_refused = refl

validate_http_proxy-accepts_iff_example :
    validate_http_proxy (proxy_to (local_backend (some "c"))) ≡ []
unfolding sample_platform
validate_http_proxy-accepts_iff_example =
    (validate_http_proxy-accepts_iff (proxy_to (local_backend (some "c")))).1 (
      ((refl, (refl, tt)), (((differs_iff "a.example.com" "b.example.com").0 refl, tt), (tt, tt))),
      (
        refl,
        (
          (
            tt,
            (
              inl (omega arith),
              (
                (
                  (
                    plain_url "http" "127.0.0.1",
                    refl,
                    (
                      inl refl,
                      (
                        refl,
                        (
                          inl (1, refl, (refl, (inr refl, (refl, refl)))),
                          (inl (inl ((differs_iff "http" "https").0 refl)), (refl, (refl, refl))),
                        ),
                      ),
                    ),
                  ),
                  (((differs_iff "c" "").0 refl, refl), tt),
                ),
                tt,
              ),
            ),
          ),
          tt,
        ),
      ),
    )
