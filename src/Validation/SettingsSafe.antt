-- ===== src/Validation/SettingsSafe.antt =====
-- What the validator of cluster settings accepts.
use network_services_operato.Common.{
  String, ◌≡◌, refl, ◌≤◌, ◌↔◌, Bool, true, false, if◌then◌else◌, Option, none, some, [], ◌∷◌, arith,
}
use network_services_operato.Common.Int.{ℤ, pos, negsuc}
use network_services_operato.Validation.Errors.{
  FieldError, FieldPath, Errors, Platform, when, Given, ◌⋀◌,
}
use network_services_operato.Validation.Accept.{
  ◌⊗◌, when_iff, limit_iff, given_iff, present_iff, condition_iff, negated_iff,
}
use network_services_operato.Validation.Settings.{
  int_ltb, TcpKeepalive, HttpTimeout, Timeout, Dns, Http2, ClusterSettings, SettingsOptions, below,
  above, load_balancer_errors, health_check_errors, connection_errors, http2_errors,
  validate_gateway_duration, keepalive_errors, http_timeout_errors, timeout_errors, dns_errors,
  validate_gateway_cluster_settings,
}

infix 50 ◌≤ℤ◌
abbrev pub ◌≤ℤ◌ : ℤ → ℤ → Type 0
pos a ≤ℤ pos b = a ≤ b
pos a ≤ℤ negsuc b = ⊥
negsuc a ≤ℤ pos b = Unit
negsuc a ≤ℤ negsuc b = b ≤ a

int_ltb_iff : (a b : ℤ) → (int_ltb a b ≡ false) ↔ (b ≤ℤ a)
int_ltb_iff (pos a) (pos b) = ground arith
int_ltb_iff (pos a) (negsuc b) = (λ _. tt, λ _. refl)
int_ltb_iff (negsuc a) (pos b) = (λ h. absurd (cc), λ h. absurd h)
int_ltb_iff (negsuc a) (negsuc b) = ground arith

most_iff : (most n : ℤ) (e : FieldError) → (when (int_ltb most n) e ≡ []) ↔ (n ≤ℤ most)
most_iff most n e = condition_iff _ e (int_ltb_iff most n)

below_iff : (lower : Option ℤ) (d : ℤ) → (below lower d ≡ false) ↔ Given (λ l. l ≤ℤ d) lower
below_iff none d = (λ _. tt, λ _. refl)
below_iff (some l) d = int_ltb_iff d l

above_iff : (upper : Option ℤ) (d : ℤ) → (above upper d ≡ false) ↔ Given (λ u. d ≤ℤ u) upper
above_iff none d = (λ _. tt, λ _. refl)
above_iff (some u) d = int_ltb_iff u d

-- A test that must fail before the rest is looked at.
first_iff {ℓ κ} :
    {P : Type ℓ} {Q : Type κ} (b : Bool) (e : FieldError) {ys : Errors}
    → (b ≡ false) ↔ P
    → (ys ≡ []) ↔ Q
    → ((if b then e ∷ [] else ys) ≡ []) ↔ (P ⋀ Q)
first_iff true e h k = (λ q. absurd (cc), λ v. absurd (let u = h.1 v.0 in cc))
first_iff false e h k = (λ q. (h.0 refl, k.0 q), λ v. k.1 v.1)

abbrev pub IsHttp2 : SettingsOptions → Http2 → Type 0
IsHttp2 opts h =
    Given (λ n. n ≤ℤ opts.max_stream_window_size) h.initial_stream_window_size
    ⋀ Given (λ n. n ≤ℤ opts.max_connection_window_size) h.initial_connection_window_size
    ⋀ Given (λ n. n ≤ opts.max_concurrent_streams) h.max_concurrent_streams

http2_iff :
    (opts : SettingsOptions) (path : FieldPath) (h : Http2)
    → (http2_errors opts path h ≡ []) ↔ IsHttp2 opts h
unfolding http2_errors
http2_iff opts path h =
    given_iff (λ n. most_iff _ n _) h.initial_stream_window_size
    ⊗ given_iff (λ n. most_iff _ n _) h.initial_connection_window_size
    ⊗ given_iff (λ n. limit_iff _ n _) h.max_concurrent_streams

module _ ⦃p : Platform⦄ where
  -- A text that reads as a duration within the limits.
  abbrev pub IsDuration : Option ℤ → Option ℤ → String → Type 0
  IsDuration lower upper text =
      (d : ℤ) × (p.parse_duration text ≡ some d)
      × (Given (λ l. l ≤ℤ d) lower ⋀ Given (λ u. d ≤ℤ u) upper)

  pub within_limits_iff :
      (lower upper : Option ℤ) (path : FieldPath) (text : String)
      → (validate_gateway_duration lower upper path text ≡ []) ↔ IsDuration lower upper text
  unfolding validate_gateway_duration
  within_limits_iff lower upper path text =
      present_iff _ (λ d. first_iff _ _ (below_iff lower d) (condition_iff _ _ (above_iff upper d)))
        (p.parse_duration text)

  abbrev pub IsKeepalive : SettingsOptions → TcpKeepalive → Type 0
  IsKeepalive opts k =
      Given (λ n. opts.min_probes ≤ n) k.probes
      ⋀ Given (IsDuration (some opts.min_idle_time) none) k.idle_time
      ⋀ Given (IsDuration (some opts.min_interval) none) k.interval

  keepalive_errors_iff :
      (opts : SettingsOptions) (path : FieldPath) (k : TcpKeepalive)
      → (keepalive_errors opts path k ≡ []) ↔ IsKeepalive opts k
  unfolding keepalive_errors
  keepalive_errors_iff opts path k =
      given_iff (λ n. limit_iff n _ _) k.probes
      ⊗ given_iff (within_limits_iff _ _ _) k.idle_time
      ⊗ given_iff (within_limits_iff _ _ _) k.interval

  abbrev pub IsHttpTimeout : SettingsOptions → HttpTimeout → Type 0
  IsHttpTimeout opts t =
      Given (IsDuration none (some opts.max_connection_idle_timeout)) t.connection_idle_timeout
      ⋀ Given (IsDuration none (some opts.max_connection_duration)) t.max_connection_duration
      ⋀ Given (IsDuration none (some opts.max_request_timeout)) t.request_timeout

  http_timeout_iff :
      (opts : SettingsOptions) (path : FieldPath) (t : HttpTimeout)
      → (http_timeout_errors opts path t ≡ []) ↔ IsHttpTimeout opts t
  unfolding http_timeout_errors
  http_timeout_iff opts path t =
      given_iff (within_limits_iff _ _ _) t.connection_idle_timeout
      ⊗ given_iff (within_limits_iff _ _ _) t.max_connection_duration
      ⊗ given_iff (within_limits_iff _ _ _) t.request_timeout

  abbrev pub IsTimeout : SettingsOptions → Timeout → Type 0
  IsTimeout opts t =
      Given (Given (IsDuration none (some opts.max_connection_timeout))) t.tcp
      ⋀ Given (IsHttpTimeout opts) t.http

  timeout_iff :
      (opts : SettingsOptions) (path : FieldPath) (t : Timeout)
      → (timeout_errors opts path t ≡ []) ↔ IsTimeout opts t
  unfolding timeout_errors
  timeout_iff opts path t =
      given_iff (given_iff (within_limits_iff _ _ _)) t.tcp
      ⊗ given_iff (http_timeout_iff opts _) t.http

  abbrev pub IsDns : SettingsOptions → Dns → Type 0
  IsDns opts d =
      Given (IsDuration (some opts.min_refresh_rate) none) d.refresh_rate
      ⋀ Given (λ b. b ≡ true) d.respect_ttl

  dns_iff :
      (opts : SettingsOptions) (path : FieldPath) (d : Dns)
      → (dns_errors opts path d ≡ []) ↔ IsDns opts d
  unfolding dns_errors
  dns_iff opts path d =
      given_iff (within_limits_iff _ _ _) d.refresh_rate
      ⊗ given_iff (λ b. condition_iff _ _ (negated_iff b)) d.respect_ttl

  -- Settings within the limits, without retries, active health checks or endpoint overrides.
  abbrev pub AreSettings : SettingsOptions → ClusterSettings → Type 0
  AreSettings opts s =
      Given (λ b. b ≡ false) s.endpoint_override
      ⋀ (s.has_retry ≡ false)
      ⋀ Given (IsKeepalive opts) s.tcp_keepalive
      ⋀ Given (λ b. b ≡ false) s.active_health_check
      ⋀ Given (IsTimeout opts) s.timeout
      ⋀ Given (Given (λ n. n ≤ℤ opts.max_buffer_limit)) s.buffer_limit
      ⋀ Given (IsDns opts) s.dns
      ⋀ Given (IsHttp2 opts) s.http2

  pub settings_iff :
      (opts : SettingsOptions) (path : FieldPath) (s : ClusterSettings)
      → (validate_gateway_cluster_settings opts path s ≡ []) ↔ AreSettings opts s
  unfolding validate_gateway_cluster_settings load_balancer_errors health_check_errors
      connection_errors
  settings_iff opts path s =
      given_iff (λ b. when_iff b _) s.endpoint_override
      ⊗ when_iff _ _
      ⊗ given_iff (keepalive_errors_iff opts _) s.tcp_keepalive
      ⊗ given_iff (λ b. when_iff b _) s.active_health_check
      ⊗ given_iff (timeout_iff opts _) s.timeout
      ⊗ given_iff (given_iff (λ n. most_iff _ n _)) s.buffer_limit
      ⊗ given_iff (dns_iff opts _) s.dns
      ⊗ given_iff (http2_iff opts _) s.http2
