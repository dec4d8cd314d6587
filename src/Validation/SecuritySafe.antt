-- ===== src/Validation/SecuritySafe.antt =====
-- What the validator of security policies accepts.
use network_services_operato.Common.{
  ℕ, String, ◌≡◌, ◌≤◌, ◌↔◌, false, length, Option, none, some, List, [], All,
}
use network_services_operato.Validation.Errors.{FieldPath, Platform, deref, Given, ◌⋀◌}
use network_services_operato.Validation.Accept.{
  ◌⊗◌, when_iff, limit_iff, absent_iff, each_iff, given_iff,
}
use network_services_operato.Validation.Network.{IsSafeUrl, url_iff}
use network_services_operato.Validation.SettingsSafe.{
  IsDuration, within_limits_iff, AreSettings, settings_iff,
}
use network_services_operato.Validation.Security.{
  ExtractFrom, ApiKeyAuth, Cors, BackendCluster, JwtProvider, OidcProvider, Oidc, SecurityPolicy,
  SecurityOptions, count_errors, secret_errors, credential_errors, extract_from_errors,
  api_key_auth_errors, cors_errors, backend_ref_errors, jwt_extractor_errors, authorization_errors,
  backend_cluster_errors, remote_jwks_errors, jwt_provider_errors, jwt_errors, oidc_provider_errors,
  oidc_errors, validate_security_policy,
}

count_iff {ℓ} :
    {A : Type ℓ} (most : ℕ) (path : FieldPath) (xs : List A)
    → (count_errors most path xs ≡ []) ↔ (length xs ≤ most)
unfolding count_errors
count_iff most path xs = limit_iff most (length xs) _

secret_iff : (path : FieldPath) (ref : Option String) → (secret_errors path ref ≡ []) ↔ (ref ≡ none)
unfolding secret_errors
secret_iff path ref = absent_iff ref _

-- Each list of places to take a key from has at most so many items.
abbrev pub IsWithin : ℕ → ExtractFrom → Type 0
IsWithin most x = (length x.headers ≤ most) ⋀ (length x.params ≤ most) ⋀ (length x.cookies ≤ most)

abbrev pub IsApiKeyAuth : SecurityOptions → ApiKeyAuth → Type 0
IsApiKeyAuth opts a =
    ((length a.credential_refs ≤ opts.max_credential_refs)
      ⋀ All (λ ref. ref ≡ none) a.credential_refs)
    ⋀ (length a.extract_from ≤ opts.max_extract_from)
    ⋀ All (Given (IsWithin opts.max_extract_from_field)) a.extract_from
    ⋀ Given (λ header. length header ≤ opts.max_client_id_header) a.forward_client_id_header

api_key_auth_iff :
    (opts : SecurityOptions) (path : FieldPath) (a : ApiKeyAuth)
    → (api_key_auth_errors opts path a ≡ []) ↔ IsApiKeyAuth opts a
unfolding api_key_auth_errors credential_errors extract_from_errors
api_key_auth_iff opts path a =
    (count_iff _ _ a.credential_refs ⊗ each_iff (λ i ref. secret_iff _ ref) 0 a.credential_refs)
    ⊗ count_iff _ _ a.extract_from
    ⊗ each_iff
        (λ i.
          given_iff
            (λ x. count_iff _ _ x.headers ⊗ count_iff _ _ x.params ⊗ count_iff _ _ x.cookies))
        0 a.extract_from
    ⊗ given_iff (λ header. limit_iff _ (length header) _) a.forward_client_id_header

abbrev pub IsCors : SecurityOptions → Cors → Type 0
IsCors opts c =
    (length c.allow_origins ≤ opts.max_cors_field)
    ⋀ (length c.allow_methods ≤ opts.max_cors_field)
    ⋀ (length c.allow_headers ≤ opts.max_cors_field)
    ⋀ (length c.expose_headers ≤ opts.max_cors_field)

cors_iff :
    (opts : SecurityOptions) (path : FieldPath) (c : Cors)
    → (cors_errors opts path c ≡ []) ↔ IsCors opts c
unfolding cors_errors
cors_iff opts path c =
    count_iff _ _ c.allow_origins
    ⊗ count_iff _ _ c.allow_methods
    ⊗ count_iff _ _ c.allow_headers
    ⊗ count_iff _ _ c.expose_headers

abbrev pub IsAuthorization : SecurityOptions → List (List String) → Type 0
IsAuthorization opts rules =
    (length rules ≤ opts.max_rules) ⋀ All (λ cidrs. length cidrs ≤ opts.max_client_cidrs) rules

authorization_errors_iff :
    (opts : SecurityOptions) (path : FieldPath) (rules : List (List String))
    → (authorization_errors opts path rules ≡ []) ↔ IsAuthorization opts rules
unfolding authorization_errors
authorization_errors_iff opts path rules =
    count_iff _ _ rules ⊗ each_iff (λ i cidrs. count_iff _ _ cidrs) 0 rules

module _ ⦃p : Platform⦄ where
  -- A cluster of backends of the policy's own namespace.
  abbrev pub IsCluster : SecurityOptions → BackendCluster → Type 0
  IsCluster opts c =
      (c.has_backend_ref ≡ false)
      ⋀ All (λ ref. ref ≡ none) c.backend_refs
      ⋀ Given (AreSettings opts.settings) c.settings

  backend_cluster_iff :
      (opts : SecurityOptions) (path : FieldPath) (c : BackendCluster)
      → (backend_cluster_errors opts path c ≡ []) ↔ IsCluster opts c
  unfolding backend_cluster_errors backend_ref_errors
  backend_cluster_iff opts path c =
      when_iff _ _
      ⊗ each_iff (λ i ref. absent_iff ref _) 0 c.backend_refs
      ⊗ given_iff (settings_iff opts.settings _) c.settings

  abbrev pub IsJwtProvider : SecurityOptions → JwtProvider → Type 0
  IsJwtProvider opts j =
      Given (λ r. IsCluster opts r.cluster ⋀ IsSafeUrl r.uri) j.remote_jwks
      ⋀ (length j.claim_to_headers ≤ opts.max_claim_to_headers)
      ⋀ Given
          (λ x.
            (length x.headers ≤ opts.max_extractor)
            ⋀ (length x.cookies ≤ opts.max_extractor)
            ⋀ (length x.params ≤ opts.max_extractor))
          j.extract_from

  jwt_provider_iff :
      (opts : SecurityOptions) (path : FieldPath) (j : JwtProvider)
      → (jwt_provider_errors opts path j ≡ []) ↔ IsJwtProvider opts j
  unfolding jwt_provider_errors remote_jwks_errors jwt_extractor_errors
  jwt_provider_iff opts path j =
      given_iff (λ r. backend_cluster_iff opts _ r.cluster ⊗ url_iff _ r.uri) j.remote_jwks
      ⊗ count_iff _ _ j.claim_to_headers
      ⊗ given_iff (λ x. count_iff _ _ x.headers ⊗ count_iff _ _ x.cookies ⊗ count_iff _ _ x.params)
          j.extract_from

  abbrev pub IsOidcProvider : SecurityOptions → OidcProvider → Type 0
  IsOidcProvider opts o =
      IsCluster opts o.cluster
      ⋀ IsSafeUrl o.issuer
      ⋀ IsSafeUrl (deref o.authorization_endpoint "")
      ⋀ IsSafeUrl (deref o.token_endpoint "")
      ⋀ IsSafeUrl (deref o.end_session_endpoint "")

  oidc_provider_iff :
      (opts : SecurityOptions) (path : FieldPath) (o : OidcProvider)
      → (oidc_provider_errors opts path o ≡ []) ↔ IsOidcProvider opts o
  unfolding oidc_provider_errors
  oidc_provider_iff opts path o =
      backend_cluster_iff opts _ o.cluster
      ⊗ url_iff _ o.issuer
      ⊗ url_iff _ (deref o.authorization_endpoint "")
      ⊗ url_iff _ (deref o.token_endpoint "")
      ⊗ url_iff _ (deref o.end_session_endpoint "")

  abbrev pub IsOidc : SecurityOptions → Oidc → Type 0
  IsOidc opts o =
      IsOidcProvider opts o.provider
      ⋀ Given (λ ref. ref ≡ none) o.client_id_ref
      ⋀ (o.client_secret ≡ none)
      ⋀ (length o.scopes ≤ opts.max_scopes)
      ⋀ (length o.resources ≤ opts.max_resources)
      ⋀ Given (IsDuration (some opts.min_refresh_token_ttl) none) o.default_refresh_token_ttl

  oidc_iff :
      (opts : SecurityOptions) (path : FieldPath) (o : Oidc)
      → (oidc_errors opts path o ≡ []) ↔ IsOidc opts o
  unfolding oidc_errors
  oidc_iff opts path o =
      oidc_provider_iff opts _ o.provider
      ⊗ given_iff (secret_iff _) o.client_id_ref
      ⊗ secret_iff _ o.client_secret
      ⊗ count_iff _ _ o.scopes
      ⊗ count_iff _ _ o.resources
      ⊗ given_iff (within_limits_iff _ _ _) o.default_refresh_token_ttl

  -- A security policy is accepted exactly if it does not use the old target reference or external
  -- authorization, each of its lists is no longer than the options allow, all its secrets and backends
  -- are of its own namespace, and every URL that the data plane fetches for it (the key sets of its JWT
  -- providers, the endpoints of its OIDC provider) is empty or an https URL without a user, to an
  -- address that is neither unspecified nor of the loopback or the link, or to a fully qualified name.
  pub validate_security_policy-accepts_iff :
      (policy : SecurityPolicy) (opts : SecurityOptions)
      → (validate_security_policy policy opts ≡ []) ↔ (
          (policy.has_target_ref ≡ false)
          ⋀ Given (IsApiKeyAuth opts) policy.api_key_auth
          ⋀ Given (IsCors opts) policy.cors
          ⋀ Given (λ ref. ref ≡ none) policy.basic_auth
          ⋀ Given (All (IsJwtProvider opts)) policy.jwt
          ⋀ Given (IsOidc opts) policy.oidc
          ⋀ (policy.has_ext_auth ≡ false)
          ⋀ Given (IsAuthorization opts) policy.authorization)
  unfolding validate_security_policy jwt_errors
  validate_security_policy-accepts_iff policy opts =
      when_iff _ _
      ⊗ given_iff (api_key_auth_iff opts _) policy.api_key_auth
      ⊗ given_iff (cors_iff opts _) policy.cors
      ⊗ given_iff (secret_iff _) policy.basic_auth
      ⊗ given_iff (each_iff (λ i j. jwt_provider_iff opts _ j) 0) policy.jwt
      ⊗ given_iff (oidc_iff opts _) policy.oidc
      ⊗ when_iff _ _
      ⊗ given_iff (authorization_errors_iff opts _) policy.authorization
