-- ===== src/Validation/Settings.antt =====
-- validateGatewayClusterSettings, and the parts of internal/validation/backendtrafficpolicy_validation.go
-- below it. A duration is a text; a limit is its number of nanoseconds, and a resource.Quantity is its
-- number of billionths, the finest that a Quantity holds, so that fractions compare as they are.
use network_services_operato.Common.{
  ℕ, String, Bool, not, ltb, if◌then◌else◌, Option, none, some, [], ◌∷◌,
}
use network_services_operato.Common.Int.{ℤ, pos, negsuc}
use network_services_operato.Validation.Errors.{
  invalid, forbidden, child, FieldPath, fault, Errors, Platform, when, given, either, ◌+e◌,
}

abbrev pub int_ltb : ℤ → ℤ → Bool
int_ltb (pos a) (pos b) = ltb a b
int_ltb (pos a) (negsuc b) = Bool.false
int_ltb (negsuc a) (pos b) = Bool.true
int_ltb (negsuc a) (negsuc b) = ltb b a

pub record TcpKeepalive : Type 0 where
  pub probes : Option ℕ
  pub idle_time : Option String
  pub interval : Option String

pub record HttpTimeout : Type 0 where
  pub connection_idle_timeout : Option String
  pub max_connection_duration : Option String
  pub request_timeout : Option String

-- The TCP timeout is its connect timeout, if it is set.
pub record Timeout : Type 0 where
  pub tcp : Option (Option String)
  pub http : Option HttpTimeout

pub record Dns : Type 0 where
  pub refresh_rate : Option String
  pub respect_ttl : Option Bool

pub record Http2 : Type 0 where
  pub initial_stream_window_size : Option ℤ
  pub initial_connection_window_size : Option ℤ
  pub max_concurrent_streams : Option ℕ

-- Of the load balancer it matters if it overrides the endpoints, of the health check if it is active,
-- and of the connection its buffer limit.
pub record ClusterSettings : Type 0 where
  pub endpoint_override : Option Bool
  pub has_retry : Bool
  pub tcp_keepalive : Option TcpKeepalive
  pub active_health_check : Option Bool
  pub timeout : Option Timeout
  pub buffer_limit : Option (Option ℤ)
  pub dns : Option Dns
  pub http2 : Option Http2

pub record SettingsOptions : Type 0 where
  pub min_probes : ℕ
  pub min_idle_time : ℤ
  pub min_interval : ℤ
  pub max_connection_timeout : ℤ
  pub max_connection_idle_timeout : ℤ
  pub max_connection_duration : ℤ
  pub max_request_timeout : ℤ
  pub max_buffer_limit : ℤ
  pub min_refresh_rate : ℤ
  pub max_stream_window_size : ℤ
  pub max_connection_window_size : ℤ
  pub max_concurrent_streams : ℕ

-- A limit that is nil is none.
abbrev pub below : Option ℤ → ℤ → Bool
below none d = Bool.false
below (some limit) d = int_ltb d limit

abbrev pub above : Option ℤ → ℤ → Bool
above none d = Bool.false
above (some limit) d = int_ltb limit d

unfoldable pub load_balancer_errors : FieldPath → Bool → Errors
load_balancer_errors path overrides =
    when overrides (fault forbidden (child "endpointOverride" ∷ path))

unfoldable pub health_check_errors : FieldPath → Bool → Errors
health_check_errors path active = when active (fault forbidden (child "active" ∷ path))

unfoldable pub connection_errors : SettingsOptions → FieldPath → Option ℤ → Errors
connection_errors opts path =
    given (λ size.
      when (int_ltb opts.max_buffer_limit size) (fault invalid (child "bufferLimit" ∷ path)))

unfoldable pub http2_errors : SettingsOptions → FieldPath → Http2 → Errors
http2_errors opts path http2 =
    given
      (λ n.
        when (int_ltb opts.max_stream_window_size n)
          (fault invalid (child "initialStreamWindowSize" ∷ path)))
      http2.initial_stream_window_size
    +e given
        (λ n.
          when (int_ltb opts.max_connection_window_size n)
            (fault invalid (child "initialConnectionWindowSize" ∷ path)))
        http2.initial_connection_window_size
    +e given
        (λ n.
          when (ltb opts.max_concurrent_streams n)
            (fault invalid (child "maxConcurrentStreams" ∷ path)))
        http2.max_concurrent_streams

module _ ⦃p : Platform⦄ where
  -- The limits are the lower and the upper one.
  unfoldable pub validate_gateway_duration : Option ℤ → Option ℤ → FieldPath → String → Errors
  validate_gateway_duration lower upper path text =
      either
        (λ d.
          if below lower d
          then fault invalid path ∷ []
          else when (above upper d) (fault invalid path))
        (fault invalid path ∷ []) (p.parse_duration text)

  unfoldable pub keepalive_errors : SettingsOptions → FieldPath → TcpKeepalive → Errors
  keepalive_errors opts path k =
      given (λ n. when (ltb n opts.min_probes) (fault invalid (child "probes" ∷ path))) k.probes
      +e given (validate_gateway_duration (some opts.min_idle_time) none (child "idleTime" ∷ path))
          k.idle_time
      +e given (validate_gateway_duration (some opts.min_interval) none (child "interval" ∷ path))
          k.interval

  unfoldable pub http_timeout_errors : SettingsOptions → FieldPath → HttpTimeout → Errors
  http_timeout_errors opts path t =
      given
        (validate_gateway_duration none (some opts.max_connection_idle_timeout)
          (child "connectionIdleTimeout" ∷ path))
        t.connection_idle_timeout
      +e given
          (validate_gateway_duration none (some opts.max_connection_duration)
            (child "maxConnectionDuration" ∷ path))
          t.max_connection_duration
      +e given
          (validate_gateway_duration none (some opts.max_request_timeout)
            (child "requestTimeout" ∷ path))
          t.request_timeout

  unfoldable pub timeout_errors : SettingsOptions → FieldPath → Timeout → Errors
  timeout_errors opts path t =
      given
        (given (
          validate_gateway_duration none (some opts.max_connection_timeout)
            (child "connectTimeout" ∷ child "tcp" ∷ path)))
        t.tcp
      +e given (http_timeout_errors opts (child "http" ∷ path)) t.http

  unfoldable pub dns_errors : SettingsOptions → FieldPath → Dns → Errors
  dns_errors opts path dns =
      given
        (validate_gateway_duration (some opts.min_refresh_rate) none
          (child "dnsRefreshRate" ∷ path))
        dns.refresh_rate
      +e given (λ respects. when (not respects) (fault forbidden (child "respectDnsTtl" ∷ path)))
          dns.respect_ttl

  unfoldable pub validate_gateway_cluster_settings :
      SettingsOptions → FieldPath → ClusterSettings → Errors
  validate_gateway_cluster_settings opts path s =
      given (load_balancer_errors (child "loadBalancer" ∷ path)) s.endpoint_override
      +e when s.has_retry (fault forbidden (child "retry" ∷ path))
      +e given (keepalive_errors opts (child "tcpKeepalive" ∷ path)) s.tcp_keepalive
      +e given (health_check_errors (child "healthCheck" ∷ path)) s.active_health_check
      +e given (timeout_errors opts (child "timeout" ∷ path)) s.timeout
      +e given (connection_errors opts (child "connection" ∷ path)) s.buffer_limit
      +e given (dns_errors opts (child "dns" ∷ path)) s.dns
      +e given (http2_errors opts (child "http2" ∷ path)) s.http2
