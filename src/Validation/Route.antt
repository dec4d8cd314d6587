-- ===== src/Validation/Route.antt =====
-- internal/validation/httproute_validation.go, but for the filters
use network_services_operato.Common.{
  ℕ, String, ◌==◌, string_eq, Bool, true, false, not, ◌&&◌, if◌then◌else◌, Option, none, some, List,
  [], ◌∷◌, ltb, length,
}
use network_services_operato.Common.Map.{lookup}
use network_services_operato.Common.Member.{has}
use network_services_operato.Validation.Errors.{
  required, invalid, forbidden, child, index, FieldPath, fault, Errors, when, is_some, deref, each,
  given, ◌+e◌,
}
use network_services_operato.Validation.Filters.{
  RouteFilter, validate_filters, supported_rule_filters, supported_backend_ref_filters,
}

pub record ParentRef : Type 0 where
  pub group : Option String
  pub kind : Option String
  pub namespace : Option String

pub record BackendObjectReference : Type 0 where
  pub group : Option String
  pub kind : Option String
  pub namespace : Option String
  pub port : Option ℕ

pub record BackendRef : Type 0 where
  pub object : BackendObjectReference
  pub filters : List RouteFilter

pub record RouteRule : Type 0 where
  pub filters : List RouteFilter
  pub backend_refs : List BackendRef

pub record HttpRoute : Type 0 where
  pub namespace : String
  pub parent_refs : List ParentRef
  pub hostnames : List String
  pub rules : List RouteRule

unfoldable pub validate_parent_ref : HttpRoute → ParentRef → FieldPath → Errors
validate_parent_ref route parent path =
    when (not (deref parent.group "gateway.networking.k8s.io" == "gateway.networking.k8s.io"))
      (fault invalid (child "group" ∷ path))
    +e when (not (deref parent.kind "Gateway" == "Gateway")) (fault invalid (child "kind" ∷ path))
    +e when (not (deref parent.namespace route.namespace == route.namespace))
        (fault invalid (child "namespace" ∷ path))

unfoldable pub validate_parent_refs : HttpRoute → FieldPath → Errors
validate_parent_refs route path =
    each (λ i parent. validate_parent_ref route parent (index i ∷ path)) 0 route.parent_refs

unfoldable pub validate_route_hostnames : HttpRoute → FieldPath → Errors
validate_route_hostnames route path = when (ltb 0 (length route.hostnames)) (fault forbidden path)

-- The flag is opts.AllowServiceBackends.
abbrev pub allowed_kinds_by_group : Bool → List (String × List String)
allowed_kinds_by_group services =
    ("discovery.k8s.io", "EndpointSlice" ∷ [])
    ∷ ("gateway.envoyproxy.io", "Backend" ∷ [])
    ∷ (if services then ("", "Service" ∷ []) ∷ [] else [])

-- The group's errors: an unknown group is an error of one kind or the other, a known one allowed.
abbrev pub group_errors : Option String → Bool → FieldPath → Errors
group_errors _ true path = []
group_errors none false path = fault required (child "group" ∷ path) ∷ []
group_errors (some group) false path = fault invalid (child "group" ∷ path) ∷ []

-- The kind's errors; nothing is said of the kinds of a group that is not allowed.
abbrev pub kind_errors : Option String → Option (List String) → FieldPath → Errors
kind_errors none kinds path = fault required (child "kind" ∷ path) ∷ []
kind_errors (some kind) none path = []
kind_errors (some kind) (some kinds) path =
    when (not (has kinds kind)) (fault invalid (child "kind" ∷ path))

abbrev pub kind_allowed : Option String → Option (List String) → Bool
kind_allowed (some kind) (some kinds) = has kinds kind
kind_allowed _ _ = false

unfoldable pub other_namespace : HttpRoute → String → Bool
other_namespace route namespace = not (namespace == route.namespace)

unfoldable pub validate_backend_object_reference :
    HttpRoute → BackendObjectReference → FieldPath → Bool → Errors
validate_backend_object_reference route ref path services =
    let group = deref ref.group "" in
    let kinds = lookup group (allowed_kinds_by_group services) in
    group_errors ref.group (is_some kinds) path
    +e kind_errors ref.kind kinds path
    +e given
        (λ namespace.
          when (other_namespace route namespace) (fault invalid (child "namespace" ∷ path)))
        ref.namespace
    +e when
        (is_some kinds
          && kind_allowed ref.kind kinds
          && (group == "discovery.k8s.io")
          && (deref ref.kind "" == "EndpointSlice")
          && not (is_some ref.port))
        (fault required (child "port" ∷ path))

unfoldable pub validate_http_backend_ref : HttpRoute → BackendRef → FieldPath → Bool → Errors
validate_http_backend_ref route ref path services =
    validate_backend_object_reference route ref.object path services
    +e validate_filters ref.filters supported_backend_ref_filters (child "filters" ∷ path)

unfoldable pub validate_rule_backend_refs : HttpRoute → RouteRule → FieldPath → Bool → Errors
validate_rule_backend_refs route rule path services =
    each (λ i ref. validate_http_backend_ref route ref (index i ∷ path) services) 0
      rule.backend_refs

unfoldable pub validate_route_rule : HttpRoute → RouteRule → FieldPath → Bool → Errors
validate_route_rule route rule path services =
    validate_filters rule.filters supported_rule_filters (child "filters" ∷ path)
    +e validate_rule_backend_refs route rule (child "backendRefs" ∷ path) services

unfoldable pub validate_route_rules : HttpRoute → FieldPath → Bool → Errors
validate_route_rules route path services =
    each (λ i rule. validate_route_rule route rule (index i ∷ path) services) 0 route.rules

unfoldable pub validate_http_route : HttpRoute → Bool → Errors
validate_http_route route services =
    validate_parent_refs route (child "parentRefs" ∷ child "spec" ∷ [])
    +e validate_route_hostnames route (child "hostnames" ∷ child "spec" ∷ [])
    +e validate_route_rules route (child "rules" ∷ child "spec" ∷ []) services
