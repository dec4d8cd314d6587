-- ===== src/Validation/TrafficPolicy.antt =====
-- internal/validation/backendtrafficpolicy_validation.go, but for the cluster settings
use network_services_operato.Common.{◌≡◌, ◌↔◌, Bool, false, Option, List, [], ◌∷◌, All}
use network_services_operato.Validation.Errors.{
  forbidden, child, index, FieldPath, fault, Errors, Platform, when, each, given, Given, ◌+e◌, ◌⋀◌,
}
use network_services_operato.Validation.Accept.{◌⊗◌, when_iff, each_iff, given_iff}
use network_services_operato.Validation.Settings.{
  ClusterSettings, SettingsOptions, validate_gateway_cluster_settings,
}
use network_services_operato.Validation.SettingsSafe.{AreSettings, settings_iff}

-- Of a rate limit it matters if it is global, and of a response override if it redirects.
pub record TrafficPolicy : Type 0 where
  pub has_target_ref : Bool
  pub settings : ClusterSettings
  pub global_rate_limit : Option Bool
  pub has_fault_injection : Bool
  pub redirects : List Bool

unfoldable pub rate_limit_errors : FieldPath → Bool → Errors
rate_limit_errors path global = when global (fault forbidden (child "global" ∷ path))

unfoldable pub fault_injection_errors : FieldPath → Bool → Errors
fault_injection_errors path injects = when injects (fault forbidden path)

unfoldable pub response_override_errors : FieldPath → List Bool → Errors
response_override_errors path =
    each (λ i redirect. when redirect (fault forbidden (child "redirect" ∷ index i ∷ path))) 0

module _ ⦃p : Platform⦄ where
  unfoldable pub validate_backend_traffic_policy : TrafficPolicy → SettingsOptions → Errors
  validate_backend_traffic_policy policy opts =
      let spec = child "spec" ∷ [] in
      when policy.has_target_ref (fault forbidden (child "targetRef" ∷ spec))
      +e validate_gateway_cluster_settings opts spec policy.settings
      +e given (rate_limit_errors (child "rateLimit" ∷ spec)) policy.global_rate_limit
      +e fault_injection_errors (child "faultInjection" ∷ spec) policy.has_fault_injection
      +e response_override_errors (child "responseOverride" ∷ spec) policy.redirects

  -- A policy for the traffic to backends is accepted exactly if it does not use the old target
  -- reference, its cluster settings keep within the limits of the options (probes and durations that
  -- have a least value, time-outs, buffers and windows that have a greatest) and neither retry,
  -- override endpoints nor check health actively, and it has no global rate limit, no fault injection
  -- and no redirect in a response.
  pub validate_backend_traffic_policy-accepts_iff :
      (policy : TrafficPolicy) (opts : SettingsOptions)
      → (validate_backend_traffic_policy policy opts ≡ []) ↔ (
          (policy.has_target_ref ≡ false)
          ⋀ AreSettings opts policy.settings
          ⋀ Given (λ global. global ≡ false) policy.global_rate_limit
          ⋀ (policy.has_fault_injection ≡ false)
          ⋀ All (λ redirect. redirect ≡ false) policy.redirects)
  unfolding validate_backend_traffic_policy rate_limit_errors fault_injection_errors
      response_override_errors
  validate_backend_traffic_policy-accepts_iff policy opts =
      when_iff _ _
      ⊗ settings_iff opts _ policy.settings
      ⊗ given_iff (λ b. when_iff b _) policy.global_rate_limit
      ⊗ when_iff _ _
      ⊗ each_iff (λ i b. when_iff b _) 0 policy.redirects
