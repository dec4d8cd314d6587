-- ===== src/Validation/Backend.antt =====
-- internal/validation/backend_validation.go and backendtlspolicy_validation.go
use network_services_operato.Common.{
  ℕ, String, ◌≡◌, ◌↔◌, not, ◌==◌, string_eq, Option, none, List, [], ◌∷◌, All,
}
use network_services_operato.Validation.Errors.{
  forbidden, not_supported, child, index, FieldPath, fault, Errors, Platform, when, is_some, deref,
  each, given, Given, ◌+e◌, ◌⋀◌,
}
use network_services_operato.Validation.Accept.{◌⊗◌, absent_iff, equal_iff, each_iff, given_iff}
use network_services_operato.Validation.Network.{validate_external_host, IsExternal, host_iff}

-- A unix endpoint is its path, an IP endpoint its address, an FQDN endpoint its host name.
pub record BackendEndpoint : Type 0 where
  pub unix : Option String
  pub ip : Option String
  pub fqdn : Option String

pub record Backend : Type 0 where
  pub type : Option String
  pub endpoints : List BackendEndpoint

module _ ⦃p : Platform⦄ where
  unfoldable pub validate_backend_endpoint : FieldPath → ℕ → BackendEndpoint → Errors
  validate_backend_endpoint path i endpoint =
      when (is_some endpoint.unix) (fault forbidden (child "unix" ∷ index i ∷ path))
      +e given (validate_external_host (child "address" ∷ child "ip" ∷ index i ∷ path)) endpoint.ip
      +e given (validate_external_host (child "hostname" ∷ child "fqdn" ∷ index i ∷ path))
          endpoint.fqdn

  abbrev pub validate_backend_endpoints : FieldPath → List BackendEndpoint → Errors
  validate_backend_endpoints path = each (validate_backend_endpoint path) 0

  unfoldable pub validate_backend : Backend → Errors
  validate_backend backend =
      when (not (deref backend.type "Endpoints" == "Endpoints"))
        (fault not_supported (child "type" ∷ child "spec" ∷ []))
      +e validate_backend_endpoints (child "endpoints" ∷ child "spec" ∷ []) backend.endpoints

  -- An endpoint without a socket whose targets validateExternalHost lets pass.
  abbrev pub IsExternalEndpoint : BackendEndpoint → Type 0
  IsExternalEndpoint endpoint =
      (endpoint.unix ≡ none) ⋀ Given IsExternal endpoint.ip ⋀ Given IsExternal endpoint.fqdn

  endpoint_iff :
      (path : FieldPath) (i : ℕ) (endpoint : BackendEndpoint)
      → (validate_backend_endpoint path i endpoint ≡ []) ↔ IsExternalEndpoint endpoint
  unfolding validate_backend_endpoint
  endpoint_iff path i endpoint =
      absent_iff _ _ ⊗ given_iff (host_iff _) endpoint.ip ⊗ given_iff (host_iff _) endpoint.fqdn

  -- A backend is accepted exactly if its type is unset or Endpoints and each endpoint is no unix
  -- socket and names only hosts that are an address which is neither unspecified nor of the loopback
  -- or the link, or a fully qualified name; private addresses and names of services in full pass.
  pub validate_backend-accepts_iff :
      (backend : Backend)
      → (validate_backend backend ≡ []) ↔ (
          (deref backend.type "Endpoints" ≡ "Endpoints") × All IsExternalEndpoint backend.endpoints)
  unfolding validate_backend
  validate_backend-accepts_iff backend =
      equal_iff _ _ _ ⊗ each_iff (endpoint_iff _) 0 backend.endpoints

pub record TargetRef : Type 0 where
  pub group : String
  pub kind : String

abbrev pub validate_target_ref : FieldPath → ℕ → TargetRef → Errors
validate_target_ref path i target =
    when (not (target.group == "gateway.envoyproxy.io"))
      (fault not_supported (child "group" ∷ index i ∷ path))
    +e when (not (target.kind == "Backend")) (fault not_supported (child "kind" ∷ index i ∷ path))

-- ValidateBackendTLSPolicy, on the policy's target references
unfoldable pub validate_backend_tls_policy : List TargetRef → Errors
validate_backend_tls_policy = each (validate_target_ref (child "targetRefs" ∷ child "spec" ∷ [])) 0

-- A policy for the connections to backends is accepted exactly if all its targets are Backend objects
-- of gateway.envoyproxy.io.
pub validate_backend_tls_policy-accepts_iff :
    (targets : List TargetRef)
    → (validate_backend_tls_policy targets ≡ [])
      ↔ All (λ t. (t.group ≡ "gateway.envoyproxy.io") × (t.kind ≡ "Backend")) targets
unfolding validate_backend_tls_policy
validate_backend_tls_policy-accepts_iff targets =
    each_iff (λ i t. equal_iff _ _ _ ⊗ equal_iff _ _ _) 0 targets
