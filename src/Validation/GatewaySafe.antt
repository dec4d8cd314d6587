-- ===== src/Validation/GatewaySafe.antt =====
-- What the validator of gateways accepts.
use network_services_operato.Common.{
  ℕ, String, ◌≡◌, ◌≢◌, ◌<◌, ◌≤◌, refl, ◌↔◌, ◌⊎◌, inl, inr, Bool, true, false, not, ◌&&◌, any, ltb,
  length, ◌==◌, string_eq, nat_eq, Option, some, List, [], All, arith, str_eq_iff, Bool-cases,
}
use network_services_operato.Common.Map.{lookup}
use network_services_operato.Gateway.Listeners.{
  AllowedRoutes, TlsConfig, Listener, is_default_listener,
}
use network_services_operato.Common.Member.{StandsIn, has}
use network_services_operato.Validation.Errors.{
  FieldError, FieldPath, Platform, Given, when, deref, ◌⋀◌,
}
use network_services_operato.Validation.Accept.{
  ◌⊗◌, when_iff, limit_iff, equal_iff, distinct_iff, each_iff, given_iff, present_iff, missing_iff,
  branch_iff, only_iff, and_iff, condition_iff, within_iff, listed_iff,
}
use network_services_operato.Validation.Network.{IsFqdn, fqdn_errors_iff}
use network_services_operato.Validation.Gateway.{
  Gateway, GatewayOptions, validate_allowed_routes, option_errors, tls_errors,
  validate_gateway_tls_config, found_in_status, port_errors, default_hostname_errors,
  custom_hostname_errors, listener_hostname_errors, listener_errors, validate_listeners,
  validate_gateway,
}

-- Routes of the gateway's own namespace and of any kind.
abbrev pub IsOwnRoutes : AllowedRoutes → Type 0
IsOwnRoutes routes =
    Given (λ from. from ≡ "Same") routes.namespaces_from ⋀ (length routes.kinds ≤ 0)

routes_iff :
    (path : FieldPath) (routes : AllowedRoutes)
    → (validate_allowed_routes path routes ≡ []) ↔ IsOwnRoutes routes
unfolding validate_allowed_routes
routes_iff path routes =
    given_iff (λ from. equal_iff from "Same" _) routes.namespaces_from
    ⊗ limit_iff 0 (length routes.kinds) _

-- An option that the configuration permits, with one of the values it lists if it lists any.
abbrev pub IsPermitted : GatewayOptions → String × String → Type 0
IsPermitted opts option =
    (values : List String) × (lookup option.0 opts.permitted_tls_options ≡ some values)
    × ((length values ≤ 0) ⊎ StandsIn values option.1)

values_iff :
    (values : List String) (v : String) (e : FieldError)
    → (when (ltb 0 (length values) && not (has values v)) e ≡ [])
      ↔ ((length values ≤ 0) ⊎ StandsIn values v)
values_iff values v e =
    condition_iff _ e (and_iff _ _ (within_iff 0 (length values)) (listed_iff values v))

option_iff :
    (opts : GatewayOptions) (path : FieldPath) (option : String × String)
    → (option_errors opts path option ≡ []) ↔ IsPermitted opts option
unfolding option_errors
option_iff opts path (k, v) =
    present_iff _ (λ values. values_iff values v _) (lookup k opts.permitted_tls_options)

abbrev pub IsTls : GatewayOptions → TlsConfig → Type 0
IsTls opts tls =
    (0 < length tls.options)
    ⋀ (deref tls.mode "Terminate" ≡ "Terminate")
    ⋀ (length tls.certificate_refs ≤ 0)
    ⋀ All (IsPermitted opts) tls.options

positive_iff : (n : ℕ) (e : FieldError) → (when (not (ltb 0 n)) e ≡ []) ↔ (0 < n)
unfolding when
positive_iff n e = ground arith

tls_config_iff :
    (opts : GatewayOptions) (path : FieldPath) (tls : Option TlsConfig)
    → (validate_gateway_tls_config opts path tls ≡ [])
      ↔ ((t : TlsConfig) × (tls ≡ some t) × IsTls opts t)
unfolding validate_gateway_tls_config tls_errors
tls_config_iff opts path tls =
    present_iff _
      (λ t.
        positive_iff (length t.options) _
        ⊗ equal_iff _ _ _
        ⊗ limit_iff 0 (length t.certificate_refs) _
        ⊗ each_iff (λ i option. option_iff opts _ option) 0 t.options)
      tls

-- A port that the configuration lists, with a protocol that it lists for the port.
abbrev pub IsServed : GatewayOptions → Listener → Type 0
IsServed opts l =
    (any (λ port. port == l.port) opts.valid_port_numbers ≡ true)
    × StandsIn (deref (lookup l.port opts.valid_protocol_types) []) l.protocol

port_iff :
    (opts : GatewayOptions) (path : FieldPath) (l : Listener)
    → (port_errors opts path l ≡ []) ↔ IsServed opts l
unfolding port_errors
port_iff opts path l = elim (Bool-cases (any (λ port. port == l.port) opts.valid_port_numbers)) [
  | inl e ↦
      let rest = missing_iff (deref (lookup l.port opts.valid_protocol_types) []) l.protocol _ in
      rw e (λ h. (refl, rest.0 h), λ v. rest.1 v.1)
  | inr e ↦ rw e (λ h. absurd (cc), λ v. absurd (let k = v.0 in cc))
]

either_true_iff :
    (s t : String) (b : Bool) (e : FieldError)
    → (when (not (s == t) && not b) e ≡ []) ↔ ((s ≡ t) ⊎ (b ≡ true))
unfolding when
either_true_iff s t b e = ground (arith, str_eq_iff s t)

module _ ⦃p : Platform⦄ where
  -- A default listener has no host name, the gateway's own, or one that the status lists; any other has
  -- one, fully qualified unless that check is switched off.
  abbrev pub IsNamed : Gateway → GatewayOptions → Listener → Type 0
  IsNamed gateway opts l =
      ((is_default_listener l ≡ true)
        × Given (λ h. (h ≡ opts.dns_address gateway) ⊎ (found_in_status gateway h ≡ true))
            l.hostname)
      ⊎ ((is_default_listener l ≡ false)
          × ((h : String) × (l.hostname ≡ some h)
              × (((opts.skip_hostname_fqdn ≡ true) × Unit {0})
                  ⊎ ((opts.skip_hostname_fqdn ≡ false) × IsFqdn h))))

  named_iff :
      (gateway : Gateway) (opts : GatewayOptions) (path : FieldPath) (l : Listener)
      → (listener_hostname_errors gateway opts path l ≡ []) ↔ IsNamed gateway opts l
  unfolding listener_hostname_errors default_hostname_errors custom_hostname_errors
  named_iff gateway opts path l =
      branch_iff (is_default_listener l)
        (given_iff (λ h. either_true_iff h (opts.dns_address gateway) _ _) l.hostname)
        (present_iff _
          (λ h. branch_iff opts.skip_hostname_fqdn (λ _. tt, λ _. refl) (fqdn_errors_iff _ h))
          l.hostname)

  abbrev pub IsListener : Gateway → GatewayOptions → Listener → Type 0
  IsListener gateway opts l =
      IsNamed gateway opts l
      ⋀ IsServed opts l
      ⋀ ((l.protocol ≢ "HTTPS") ⊎ ((t : TlsConfig) × (l.tls ≡ some t) × IsTls opts t))
      ⋀ Given IsOwnRoutes l.allowed_routes

  listener_iff :
      (gateway : Gateway) (opts : GatewayOptions) (path : FieldPath) (l : Listener)
      → (listener_errors gateway opts path l ≡ []) ↔ IsListener gateway opts l
  unfolding listener_errors
  listener_iff gateway opts path l =
      named_iff gateway opts path l
      ⊗ port_iff opts path l
      ⊗ only_iff l.protocol "HTTPS" (tls_config_iff opts _ l.tls)
      ⊗ given_iff (routes_iff _) l.allowed_routes

  -- A gateway is accepted exactly if it names a class, has no addresses, infrastructure or TLS of its
  -- own, and for each listener: its host name is as IsNamed says, its port and protocol are
  -- configured, TLS on an HTTPS listener terminates here, with no certificates of the tenant and at
  -- least one option, all of them permitted, and it takes only routes of its own namespace.
  pub validate_gateway-accepts_iff :
      (gateway : Gateway) (opts : GatewayOptions)
      → (validate_gateway gateway opts ≡ []) ↔ (
          (gateway.class_name ≢ "")
          ⋀ All (IsListener gateway opts) gateway.listeners
          ⋀ (length gateway.addresses ≤ 0)
          ⋀ (gateway.has_infrastructure ≡ false)
          ⋀ (gateway.has_tls ≡ false))
  unfolding validate_gateway validate_listeners
  validate_gateway-accepts_iff gateway opts =
      distinct_iff _ _ _
      ⊗ each_iff (λ i l. listener_iff gateway opts _ l) 0 gateway.listeners
      ⊗ limit_iff 0 (length gateway.addresses) _
      ⊗ when_iff _ _
      ⊗ when_iff _ _
