-- ===== src/Validation/Security.antt =====
-- internal/validation/securitypolicy_validation.go
use network_services_operato.Common.{
  ℕ, String, Bool, ltb, length, Option, none, some, List, [], ◌∷◌,
}
use network_services_operato.Common.Int.{ℤ}
use network_services_operato.Common.Text.{Bytes}
use network_services_operato.Validation.Errors.{
  forbidden, too_many, too_long, child, index, FieldPath, fault, Errors, Platform, when, is_some,
  deref, each, given, ◌+e◌,
}
use network_services_operato.Validation.Network.{validate_external_https_url}
use network_services_operato.Validation.Settings.{
  ClusterSettings, SettingsOptions, validate_gateway_duration, validate_gateway_cluster_settings,
}

-- A reference to a secret is its namespace, if it is set. Headers, parameters and the like are only
-- counted.
pub record ExtractFrom : Type 0 where
  pub headers : List String
  pub params : List String
  pub cookies : List String

pub record ApiKeyAuth : Type 0 where
  pub credential_refs : List (Option String)
  pub extract_from : List (Option ExtractFrom)
  pub forward_client_id_header : Option Bytes

pub record Cors : Type 0 where
  pub allow_origins : List String
  pub allow_methods : List String
  pub allow_headers : List String
  pub expose_headers : List String

-- A reference to a backend is its namespace, if it is set.
pub record BackendCluster : Type 0 where
  pub has_backend_ref : Bool
  pub backend_refs : List (Option String)
  pub settings : Option ClusterSettings

pub record RemoteJwks : Type 0 where
  pub cluster : BackendCluster
  pub uri : String

pub record JwtProvider : Type 0 where
  pub remote_jwks : Option RemoteJwks
  pub claim_to_headers : List String
  pub extract_from : Option ExtractFrom

pub record OidcProvider : Type 0 where
  pub cluster : BackendCluster
  pub issuer : String
  pub authorization_endpoint : Option String
  pub token_endpoint : Option String
  pub end_session_endpoint : Option String

pub record Oidc : Type 0 where
  pub provider : OidcProvider
  pub client_id_ref : Option (Option String)
  pub client_secret : Option String
  pub scopes : List String
  pub resources : List String
  pub default_refresh_token_ttl : Option String

-- Basic authentication is its reference to the users, authorization the CIDRs of each rule.
pub record SecurityPolicy : Type 0 where
  pub has_target_ref : Bool
  pub api_key_auth : Option ApiKeyAuth
  pub cors : Option Cors
  pub basic_auth : Option (Option String)
  pub jwt : Option (List JwtProvider)
  pub oidc : Option Oidc
  pub has_ext_auth : Bool
  pub authorization : Option (List (List String))

pub record SecurityOptions : Type 0 where
  pub max_credential_refs : ℕ
  pub max_extract_from : ℕ
  pub max_extract_from_field : ℕ
  pub max_client_id_header : ℕ
  pub max_cors_field : ℕ
  pub max_claim_to_headers : ℕ
  pub max_extractor : ℕ
  pub max_scopes : ℕ
  pub max_resources : ℕ
  pub min_refresh_token_ttl : ℤ
  pub max_rules : ℕ
  pub max_client_cidrs : ℕ
  pub settings : SettingsOptions

-- if len(xs) > most { allErrs = append(allErrs, field.TooMany(path, ...)) }
unfoldable pub count_errors {ℓ} : {A : Type ℓ} → ℕ → FieldPath → List A → Errors
count_errors most path xs = when (ltb most (length xs)) (fault too_many path)

unfoldable pub secret_errors : FieldPath → Option String → Errors
secret_errors path namespace = when (is_some namespace) (fault forbidden (child "namespace" ∷ path))

unfoldable pub credential_errors : SecurityOptions → FieldPath → List (Option String) → Errors
credential_errors opts path refs =
    count_errors opts.max_credential_refs path refs
    +e each (λ i ref. secret_errors (index i ∷ path) ref) 0 refs

unfoldable pub extract_from_errors : SecurityOptions → FieldPath → ExtractFrom → Errors
extract_from_errors opts path x =
    count_errors opts.max_extract_from_field (child "headers" ∷ path) x.headers
    +e count_errors opts.max_extract_from_field (child "params" ∷ path) x.params
    +e count_errors opts.max_extract_from_field (child "cookies" ∷ path) x.cookies

unfoldable pub api_key_auth_errors : SecurityOptions → FieldPath → ApiKeyAuth → Errors
api_key_auth_errors opts path a =
    credential_errors opts (child "credentialRefs" ∷ path) a.credential_refs
    +e count_errors opts.max_extract_from (child "extractFrom" ∷ path) a.extract_from
    +e each (λ i x. given (extract_from_errors opts (index i ∷ child "extractFrom" ∷ path)) x) 0
        a.extract_from
    +e given
        (λ header.
          when (ltb opts.max_client_id_header (length header))
            (fault too_long (child "forwardClientIDHeader" ∷ path)))
        a.forward_client_id_header

unfoldable pub cors_errors : SecurityOptions → FieldPath → Cors → Errors
cors_errors opts path c =
    count_errors opts.max_cors_field (child "allowOrigins" ∷ path) c.allow_origins
    +e count_errors opts.max_cors_field (child "allowMethods" ∷ path) c.allow_methods
    +e count_errors opts.max_cors_field (child "allowHeaders" ∷ path) c.allow_headers
    +e count_errors opts.max_cors_field (child "exposeHeaders" ∷ path) c.expose_headers

unfoldable pub backend_ref_errors : FieldPath → Option String → Errors
backend_ref_errors path namespace =
    when (is_some namespace) (fault forbidden (child "namespace" ∷ path))

unfoldable pub jwt_extractor_errors : SecurityOptions → FieldPath → ExtractFrom → Errors
jwt_extractor_errors opts path x =
    count_errors opts.max_extractor (child "headers" ∷ path) x.headers
    +e count_errors opts.max_extractor (child "cookies" ∷ path) x.cookies
    +e count_errors opts.max_extractor (child "params" ∷ path) x.params

unfoldable pub authorization_errors : SecurityOptions → FieldPath → List (List String) → Errors
authorization_errors opts path rules =
    count_errors opts.max_rules (child "rules" ∷ path) rules
    +e each
        (λ i cidrs.
          count_errors opts.max_client_cidrs
            (child "clientCIDRs" ∷ child "principal" ∷ index i ∷ child "rules" ∷ path) cidrs)
        0 rules

module _ ⦃p : Platform⦄ where
  unfoldable pub backend_cluster_errors : SecurityOptions → FieldPath → BackendCluster → Errors
  backend_cluster_errors opts path c =
      when c.has_backend_ref (fault forbidden (child "backendRef" ∷ path))
      +e each (λ i ref. backend_ref_errors (index i ∷ child "backendRefs" ∷ path) ref) 0
          c.backend_refs
      +e given (validate_gateway_cluster_settings opts.settings (child "backendSettings" ∷ path))
          c.settings

  unfoldable pub remote_jwks_errors : SecurityOptions → FieldPath → RemoteJwks → Errors
  remote_jwks_errors opts path r =
      backend_cluster_errors opts path r.cluster
      +e validate_external_https_url (child "uri" ∷ path) r.uri

  unfoldable pub jwt_provider_errors : SecurityOptions → FieldPath → JwtProvider → Errors
  jwt_provider_errors opts path j =
      given (remote_jwks_errors opts (child "remoteJWKS" ∷ path)) j.remote_jwks
      +e count_errors opts.max_claim_to_headers (child "claimToHeaders" ∷ path) j.claim_to_headers
      +e given (jwt_extractor_errors opts (child "extractFrom" ∷ path)) j.extract_from

  unfoldable pub jwt_errors : SecurityOptions → FieldPath → List JwtProvider → Errors
  jwt_errors opts path =
      each (λ i j. jwt_provider_errors opts (index i ∷ child "providers" ∷ path) j) 0

  unfoldable pub oidc_provider_errors : SecurityOptions → FieldPath → OidcProvider → Errors
  oidc_provider_errors opts path o =
      backend_cluster_errors opts path o.cluster
      +e validate_external_https_url (child "issuer" ∷ path) o.issuer
      +e validate_external_https_url (child "authorizationEndpoint" ∷ path)
          (deref o.authorization_endpoint "")
      +e validate_external_https_url (child "tokenEndpoint" ∷ path) (deref o.token_endpoint "")
      +e validate_external_https_url (child "endSessionEndpoint" ∷ path)
          (deref o.end_session_endpoint "")

  unfoldable pub oidc_errors : SecurityOptions → FieldPath → Oidc → Errors
  oidc_errors opts path o =
      oidc_provider_errors opts (child "provider" ∷ path) o.provider
      +e given (secret_errors (child "clientIDRef" ∷ path)) o.client_id_ref
      +e secret_errors (child "clientSecret" ∷ path) o.client_secret
      +e count_errors opts.max_scopes (child "scopes" ∷ path) o.scopes
      +e count_errors opts.max_resources (child "resources" ∷ path) o.resources
      +e given
          (validate_gateway_duration (some opts.min_refresh_token_ttl) none
            (child "defaultRefreshTokenTTL" ∷ path))
          o.default_refresh_token_ttl

  unfoldable pub validate_security_policy : SecurityPolicy → SecurityOptions → Errors
  validate_security_policy policy opts =
      let spec = child "spec" ∷ [] in
      when policy.has_target_ref (fault forbidden (child "targetRef" ∷ spec))
      +e given (api_key_auth_errors opts (child "apiKeyAuth" ∷ spec)) policy.api_key_auth
      +e given (cors_errors opts (child "cors" ∷ spec)) policy.cors
      +e given (secret_errors (child "users" ∷ child "basicAuth" ∷ spec)) policy.basic_auth
      +e given (jwt_errors opts (child "jwt" ∷ spec)) policy.jwt
      +e given (oidc_errors opts (child "oidc" ∷ spec)) policy.oidc
      +e when policy.has_ext_auth (fault forbidden (child "extAuth" ∷ spec))
      +e given (authorization_errors opts (child "authorization" ∷ spec)) policy.authorization
