-- ===== src/Validation/RouteSafe.antt =====
-- What the validator of routes accepts.
use network_services_operato.Common.{
  ℕ, String, ◌≡◌, ◌≢◌, refl, ◌↔◌, ◌⊎◌, inl, inr, ◌==◌, string_eq, Bool, true, false, not, ◌&&◌,
  Option, none, some, List, [], All, length, ◌≤◌, arith, str_eq_iff,
}
use network_services_operato.Common.Map.{lookup}
use network_services_operato.Validation.Errors.{FieldPath, when, is_some, deref, Given, ◌⋀◌}
use network_services_operato.Validation.Accept.{
  ◌⊗◌, when_iff, limit_iff, equal_iff, each_iff, given_iff,
}
use network_services_operato.Validation.Filters.{
  IsSupported, filters_iff, supported_rule_filters, supported_backend_ref_filters,
}
use network_services_operato.Validation.Route.{
  ParentRef, BackendObjectReference, BackendRef, RouteRule, HttpRoute, other_namespace,
  validate_parent_ref, validate_parent_refs, validate_route_hostnames, allowed_kinds_by_group,
  group_errors, kind_errors, kind_allowed, validate_backend_object_reference,
  validate_http_backend_ref, validate_rule_backend_refs, validate_route_rule, validate_route_rules,
  validate_http_route,
}

-- A parent is a Gateway of the route's namespace.
abbrev pub IsLocalGateway : HttpRoute → ParentRef → Type 0
IsLocalGateway route parent =
    (deref parent.group "gateway.networking.k8s.io" ≡ "gateway.networking.k8s.io")
    ⋀ (deref parent.kind "Gateway" ≡ "Gateway")
    ⋀ (deref parent.namespace route.namespace ≡ route.namespace)

-- An EndpointSlice with a port, a Backend, or, where they are allowed, a Service.
abbrev pub IsAllowedTarget : Bool → Option String → Option String → Option ℕ → Type 0
IsAllowedTarget services group kind port =
    ((group ≡ some "discovery.k8s.io") × (kind ≡ some "EndpointSlice") × (port ≢ none))
    ⊎ (((group ≡ some "gateway.envoyproxy.io") × (kind ≡ some "Backend"))
        ⊎ ((services ≡ true) × (deref group "" ≡ "") × (kind ≡ some "Service")))

abbrev port_missing : Option String → Option String → Option ℕ → Option (List String) → Bool
port_missing group kind port kinds =
    is_some kinds
    && kind_allowed kind kinds
    && (deref group "" == "discovery.k8s.io")
    && (deref kind "" == "EndpointSlice")
    && not (is_some port)

target_sound :
    (services : Bool) (group kind : Option String) (port : Option ℕ) (path : FieldPath)
    → (let kinds = lookup (deref group "") (allowed_kinds_by_group services) in
        group_errors group (is_some kinds) path ≡ []
        → kind_errors kind kinds path ≡ []
        → port_missing group kind port kinds ≡ false
        → IsAllowedTarget services group kind port)
unfolding lookup when
target_sound services group none port path h1 h2 h3 = absurd (cc)
target_sound true none (some k) port path h1 h2 h3 = ground (arith, str_eq_iff "Service" k)
target_sound false none (some k) port path h1 h2 h3 = absurd (cc)
target_sound services (some g) (some k) port path h1 h2 h3 = ground (
  arith,
  str_eq_iff "discovery.k8s.io" g,
  str_eq_iff g "discovery.k8s.io",
  str_eq_iff "gateway.envoyproxy.io" g,
  str_eq_iff "" g,
  str_eq_iff "EndpointSlice" k,
  str_eq_iff k "EndpointSlice",
  str_eq_iff "Backend" k,
  str_eq_iff "Service" k,
)

target_complete :
    (services : Bool) (group kind : Option String) (port : Option ℕ) (path : FieldPath)
    → IsAllowedTarget services group kind port
    → (let kinds = lookup (deref group "") (allowed_kinds_by_group services) in
        (group_errors group (is_some kinds) path ≡ [])
        × (kind_errors kind kinds path ≡ [])
        × (port_missing group kind port kinds ≡ false))
unfolding lookup when
target_complete services group kind port path (inl (e, f, h)) = rw (e, f) (refl, refl, ground arith)
target_complete services group kind port path (inr (inl (e, f))) = rw (e, f) (refl, refl, refl)
target_complete services none kind port path (inr (inr (e, f, h))) = rw (e, h) (refl, refl, refl)
target_complete services (some g) kind port path (inr (inr (e, f, h))) =
    rw (e, f, h) (refl, refl, refl)

abbrev pub IsAllowedReference : HttpRoute → Bool → BackendObjectReference → Type 0
IsAllowedReference route services ref =
    IsAllowedTarget services ref.group ref.kind ref.port
    ⋀ Given (λ namespace. namespace ≡ route.namespace) ref.namespace

reference_parts :
    (route : HttpRoute) (ref : BackendObjectReference) (path : FieldPath) (services : Bool)
    → (validate_backend_object_reference route ref path services ≡ []) ↔ (
        let kinds = lookup (deref ref.group "") (allowed_kinds_by_group services) in
        (group_errors ref.group (is_some kinds) path ≡ [])
        ⋀ (kind_errors ref.kind kinds path ≡ [])
        ⋀ Given (λ namespace. namespace ≡ route.namespace) ref.namespace
        ⋀ (port_missing ref.group ref.kind ref.port kinds ≡ false))
unfolding validate_backend_object_reference other_namespace
reference_parts route ref path services =
    (λ h. h, λ h. h)
    ⊗ (λ h. h, λ h. h)
    ⊗ given_iff (λ namespace. equal_iff namespace _ _) ref.namespace
    ⊗ when_iff _ _

reference_iff :
    (route : HttpRoute) (ref : BackendObjectReference) (path : FieldPath) (services : Bool)
    → (validate_backend_object_reference route ref path services ≡ [])
      ↔ IsAllowedReference route services ref
reference_iff route ref path services =
    let parts = reference_parts route ref path services in
    (
      λ h.
          let (g, (k, (n, m))) = parts.0 h in
          (target_sound services ref.group ref.kind ref.port path g k m, n),
      λ h.
          let (g, k, m) = target_complete services ref.group ref.kind ref.port path h.0 in
          parts.1 (g, (k, (h.1, m))),
    )

-- A reference that is allowed, with filters of the types that a backend may have.
abbrev pub IsAllowedBackend : HttpRoute → Bool → BackendRef → Type 0
IsAllowedBackend route services ref =
    IsAllowedReference route services ref.object
    ⋀ All (IsSupported supported_backend_ref_filters) ref.filters

abbrev pub IsAllowedRule : HttpRoute → Bool → RouteRule → Type 0
IsAllowedRule route services rule =
    All (IsSupported supported_rule_filters) rule.filters
    ⋀ All (IsAllowedBackend route services) rule.backend_refs

backend_iff :
    (route : HttpRoute) (ref : BackendRef) (path : FieldPath) (services : Bool)
    → (validate_http_backend_ref route ref path services ≡ []) ↔ IsAllowedBackend route services ref
unfolding validate_http_backend_ref
backend_iff route ref path services =
    reference_iff route ref.object path services
    ⊗ filters_iff ref.filters supported_backend_ref_filters _

rule_iff :
    (route : HttpRoute) (rule : RouteRule) (path : FieldPath) (services : Bool)
    → (validate_route_rule route rule path services ≡ []) ↔ IsAllowedRule route services rule
unfolding validate_route_rule validate_rule_backend_refs
rule_iff route rule path services =
    filters_iff rule.filters supported_rule_filters _
    ⊗ each_iff (λ i ref. backend_iff route ref _ services) 0 rule.backend_refs

parent_iff :
    (route : HttpRoute) (parent : ParentRef) (path : FieldPath)
    → (validate_parent_ref route parent path ≡ []) ↔ IsLocalGateway route parent
unfolding validate_parent_ref
parent_iff route parent path = equal_iff _ _ _ ⊗ equal_iff _ _ _ ⊗ equal_iff _ _ _

-- A route is accepted exactly if each parent is a Gateway of the route's own namespace, it sets no
-- host names, and each rule has only supported filters and refers only to backends of the route's own
-- namespace that are an EndpointSlice with a port, a Backend, or, where the option allows it, a Service
-- of the core group, with filters supported there.
pub validate_http_route-accepts_iff :
    (route : HttpRoute) (services : Bool)
    → (validate_http_route route services ≡ []) ↔ (
        All (IsLocalGateway route) route.parent_refs
        ⋀ (length route.hostnames ≤ 0)
        ⋀ All (IsAllowedRule route services) route.rules)
unfolding validate_http_route validate_parent_refs validate_route_hostnames validate_route_rules
validate_http_route-accepts_iff route services =
    each_iff (λ i parent. parent_iff route parent _) 0 route.parent_refs
    ⊗ limit_iff 0 (length route.hostnames) _
    ⊗ each_iff (λ i rule. rule_iff route rule _ services) 0 route.rules
