-- ===== src/Validation/Filters.antt =====
-- validateFilters (internal/validation/httproute_validation.go), which routes and proxies share, and
-- internal/validation/httproutefilter_validation.go.
use network_services_operato.Common.{
  ℕ, String, ◌≡◌, ◌≤◌, ◌↔◌, not, ◌==◌, ltb, string_eq, Option, List, [], ◌∷◌, All, length,
}
use network_services_operato.Common.Text.{Bytes}
use network_services_operato.Common.Member.{StandsIn, has}
use network_services_operato.Validation.Errors.{
  not_supported, too_long, child, index, FieldPath, fault, Errors, when, each, given, Given, ◌+e◌,
}
use network_services_operato.Validation.Accept.{
  ◌⊗◌, limit_iff, equal_iff, each_iff, given_iff, missing_iff,
}

pub record LocalObjectReference : Type 0 where
  pub group : String
  pub kind : String

pub record RouteFilter : Type 0 where
  pub type : String
  pub extension_ref : Option LocalObjectReference

abbrev pub supported_rule_filters : List String
supported_rule_filters =
    "RequestHeaderModifier" ∷ "ResponseHeaderModifier" ∷ "RequestRedirect" ∷ "URLRewrite" ∷ "CORS"
    ∷ "ExtensionRef" ∷ []

abbrev pub supported_backend_ref_filters : List String
supported_backend_ref_filters =
    "RequestHeaderModifier" ∷ "ResponseHeaderModifier" ∷ "ExtensionRef" ∷ []

abbrev pub extension_ref_errors : FieldPath → LocalObjectReference → Errors
extension_ref_errors path ref =
    when (not (ref.group == "gateway.envoyproxy.io")) (fault not_supported (child "group" ∷ path))
    +e when (not (ref.kind == "HTTPRouteFilter")) (fault not_supported (child "kind" ∷ path))

unfoldable pub validate_route_filter : List String → FieldPath → RouteFilter → Errors
validate_route_filter supported path filter =
    when (not (has supported filter.type)) (fault not_supported (child "type" ∷ path))
    +e given (extension_ref_errors (child "extensionRef" ∷ path)) filter.extension_ref

unfoldable pub validate_filters : List RouteFilter → List String → FieldPath → Errors
validate_filters filters supported path =
    each (λ i filter. validate_route_filter supported (index i ∷ path) filter) 0 filters

abbrev pub IsFilterRef : LocalObjectReference → Type 0
IsFilterRef ref = (ref.group ≡ "gateway.envoyproxy.io") × (ref.kind ≡ "HTTPRouteFilter")

-- A filter of one of the types, whose reference, if any, is to an HTTPRouteFilter.
abbrev pub IsSupported : List String → RouteFilter → Type 0
IsSupported supported filter =
    StandsIn supported filter.type × Given IsFilterRef filter.extension_ref

filter_iff :
    (supported : List String) (path : FieldPath) (filter : RouteFilter)
    → (validate_route_filter supported path filter ≡ []) ↔ IsSupported supported filter
unfolding validate_route_filter
filter_iff supported path filter =
    missing_iff _ _ _
    ⊗ given_iff (λ ref. equal_iff ref.group _ _ ⊗ equal_iff ref.kind _ _) filter.extension_ref

pub filters_iff :
    (filters : List RouteFilter) (supported : List String) (path : FieldPath)
    → (validate_filters filters supported path ≡ []) ↔ All (IsSupported supported) filters
unfolding validate_filters
filters_iff filters supported path = each_iff (λ i filter. filter_iff supported _ filter) 0 filters

-- ValidateHTTPRouteFilter, on the inline body of the direct response, if all of them are set; the
-- other argument is opts.MaxInlineBodySize.
unfoldable pub validate_http_route_filter : Option Bytes → ℕ → Errors
validate_http_route_filter inline most =
    given
      (λ body. when (ltb most (length body)) (
        fault too_long
          (child "inline" ∷ child "body" ∷ child "directResponse" ∷ child "spec" ∷ [])))
      inline

pub inline_iff :
    (inline : Option Bytes) (most : ℕ)
    → (validate_http_route_filter inline most ≡ []) ↔ Given (λ body. length body ≤ most) inline
unfolding validate_http_route_filter
inline_iff inline most = given_iff (λ body. limit_iff most (length body) _) inline
