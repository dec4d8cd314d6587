-- ===== src/Tests/Policies.antt =====
-- The validators of policies at work (internal/validation).
use network_services_operato.Common.{
  ℕ, String, ◌≡◌, refl, inl, inr, false, none, some, [], ◌∷◌, string_eq, nat_eq, arith,
}
use network_services_operato.Common.Int.{pos}
use network_services_operato.Validation.Errors.{
  Kind, invalid, required, forbidden, not_supported, child, index, key, fault, Url, Platform,
}
use network_services_operato.Common.Member.{differs_iff}
use network_services_operato.Validation.Settings.{ClusterSettings, SettingsOptions, Timeout}
use network_services_operato.Validation.TrafficPolicy.{
  TrafficPolicy, validate_backend_traffic_policy, validate_backend_traffic_policy-accepts_iff,
}
use network_services_operato.Validation.Security.{
  BackendCluster, OidcProvider, Oidc, Cors, SecurityPolicy, SecurityOptions,
  validate_security_policy,
}
use network_services_operato.Validation.SecuritySafe.{validate_security_policy-accepts_iff}
use network_services_operato.Tests.Platform.{plain_url, sample_platform}

abbrev no_settings : ClusterSettings
no_settings = record {
  endpoint_override = none;
  has_retry = false;
  tcp_keepalive = none;
  active_health_check = none;
  timeout = none;
  buffer_limit = none;
  dns = none;
  http2 = none;
}

abbrev connecting_within : String → ClusterSettings
connecting_within d = record no_settings {
  timeout = some (record { tcp = some (some d); http = none });
}

abbrev settings_options : ℕ → SettingsOptions
settings_options most = record {
  min_probes = 1;
  min_idle_time = pos 0;
  min_interval = pos 0;
  max_connection_timeout = pos most;
  max_connection_idle_timeout = pos 0;
  max_connection_duration = pos 0;
  max_request_timeout = pos 0;
  max_buffer_limit = pos 0;
  min_refresh_rate = pos 0;
  max_stream_window_size = pos 0;
  max_connection_window_size = pos 0;
  max_concurrent_streams = 0;
}

abbrev sample_traffic : TrafficPolicy
sample_traffic = record {
  has_target_ref = false;
  settings = connecting_within "10s";
  global_rate_limit = some false;
  has_fault_injection = false;
  redirects = false ∷ [];
}

too_slow_is_refused :
    validate_backend_traffic_policy sample_traffic (settings_options 9999999999)
    ≡ fault invalid (child "connectTimeout" ∷ child "tcp" ∷ child "timeout" ∷ child "spec" ∷ [])
      ∷ []
unfolding validate_backend_traffic_policy network_services_operato.Validation.Errors.when
    network_services_operato.Validation.Settings.validate_gateway_cluster_settings
    network_services_operato.Validation.Errors.given
    network_services_operato.Validation.Settings.timeout_errors
    network_services_operato.Validation.Settings.validate_gateway_duration
    network_services_operato.Validation.Errors.either sample_platform
    network_services_operato.Validation.TrafficPolicy.rate_limit_errors
    network_services_operato.Validation.TrafficPolicy.fault_injection_errors
    network_services_operato.Validation.TrafficPolicy.response_override_errors
    network_services_operato.Validation.Errors.each
too_slow_is_refused = refl

validate_backend_traffic_policy-accepts_iff_example :
    validate_backend_traffic_policy sample_traffic (settings_options 10000000000) ≡ []
unfolding sample_platform
validate_backend_traffic_policy-accepts_iff_example =
    (validate_backend_traffic_policy-accepts_iff sample_traffic (settings_options 10000000000)).1 (
      refl,
      (
        (
          tt,
          (refl, (tt, (tt, (((pos 10000000000, refl, (tt, omega arith)), tt), (tt, (tt, tt)))))),
        ),
        (refl, (refl, (refl, tt))),
      ),
    )

abbrev sample_cluster : BackendCluster
sample_cluster = record { has_backend_ref = false; backend_refs = []; settings = none }

abbrev sample_provider : String → OidcProvider
sample_provider issuer = record {
  cluster = sample_cluster;
  issuer = issuer;
  authorization_endpoint = none;
  token_endpoint = none;
  end_session_endpoint = none;
}

abbrev security_to : String → SecurityPolicy
security_to issuer = record {
  has_target_ref = false;
  api_key_auth = none;
  cors = none;
  basic_auth = none;
  jwt = none;
  oidc = some (record {
    provider = sample_provider issuer;
    client_id_ref = none;
    client_secret = none;
    scopes = "openid" ∷ [];
    resources = [];
    default_refresh_token_ttl = none;
  });
  has_ext_auth = false;
  authorization = none;
}

abbrev security_options : SecurityOptions
security_options = record {
  max_credential_refs = 1;
  max_extract_from = 1;
  max_extract_from_field = 1;
  max_client_id_header = 1;
  max_cors_field = 1;
  max_claim_to_headers = 1;
  max_extractor = 1;
  max_scopes = 1;
  max_resources = 1;
  min_refresh_token_ttl = pos 0;
  max_rules = 1;
  max_client_cidrs = 1;
  settings = settings_options 1;
}

inner_issuer_is_refused :
    validate_security_policy (security_to "http://127.0.0.1:8080") security_options
    ≡ fault not_supported
        (key "scheme" ∷ child "issuer" ∷ child "provider" ∷ child "oidc" ∷ child "spec" ∷ [])
      ∷ fault invalid
          (key "host" ∷ child "issuer" ∷ child "provider" ∷ child "oidc" ∷ child "spec" ∷ [])
      ∷ []
unfolding validate_security_policy network_services_operato.Validation.Errors.when
    network_services_operato.Validation.Errors.given
    network_services_operato.Validation.Security.oidc_errors
    network_services_operato.Validation.Security.oidc_provider_errors
    network_services_operato.Validation.Security.backend_cluster_errors
    network_services_operato.Validation.Errors.each
    network_services_operato.Validation.Network.validate_external_https_url
    network_services_operato.Validation.Errors.either sample_platform
    network_services_operato.Validation.Network.url_errors
    network_services_operato.Validation.Network.validate_external_host
    network_services_operato.Validation.Network.ip_errors
    network_services_operato.Validation.Security.secret_errors
    network_services_operato.Validation.Security.count_errors
inner_issuer_is_refused = refl

validate_security_policy-accepts_iff_example :
    validate_security_policy (security_to "https://id.example.com") security_options ≡ []
unfolding sample_platform
validate_security_policy-accepts_iff_example =
    (validate_security_policy-accepts_iff (security_to "https://id.example.com") security_options).1
      (
        refl,
        (
          tt,
          (
            tt,
            (
              tt,
              (
                tt,
                (
                  (
                    (
                      (refl, (tt, tt)),
                      (
                        inr (
                          plain_url "https" "id.example.com",
                          refl,
                          (
                            refl,
                            (refl, ((differs_iff "id.example.com" "").0 refl, inr (refl, refl))),
                          ),
                        ),
                        (inl refl, (inl refl, inl refl)),
                      ),
                    ),
                    (tt, (refl, (omega arith, (omega arith, tt)))),
                  ),
                  (refl, tt),
                ),
              ),
            ),
          ),
        ),
      )
