-- ===== src/Validation/GatewayDefaults.antt =====
-- Default listeners beside the tenant's: ValidateTenantListenerHostnames
-- (internal/validation/gateway_validation.go) and SetDefaultListeners (internal/util/gateway/listeners.go).
use network_services_operato.Common.{
  String, ◌≡◌, ◌≢◌, refl, ◌↔◌, ◌⊎◌, inl, inr, true, false, not, string_eq, Option, none, some, List,
  [], ◌∷◌, All, arith, str_eq_iff, Distinct,
}
use network_services_operato.Gateway.Listeners.{
  Listener, default_http, default_https, is_default_listener, http_listener, https_listener,
  set_listener, set_default_listeners,
}
use network_services_operato.Gateway.ListenersSafe.{
  names, set_listener-Distinct, set_listener-others,
}
use network_services_operato.Validation.Errors.{is_some}
use network_services_operato.Validation.Accept.{each_iff, branch_iff, condition_iff, negated_iff}
use network_services_operato.Validation.Gateway.{validate_tenant_listener_hostnames}

is_some_iff : (o : Option String) → (is_some o ≡ true) ↔ (o ≢ none)
is_some_iff none = (λ h. absurd (cc), λ h. absurd (h refl))
is_some_iff (some a) = (λ _ e. absurd (cc), λ _. refl)

-- A default listener, or one with a host name.
abbrev pub MayStand : Listener → Type 0
MayStand l =
    ((is_default_listener l ≡ true) × Unit {0})
    ⊎ ((is_default_listener l ≡ false) × (l.hostname ≢ none))

hostname_iff : (o : Option String) → (not (is_some o) ≡ false) ↔ (o ≢ none)
hostname_iff o =
    (λ h. (is_some_iff o).0 ((negated_iff _).0 h), λ v. (negated_iff _).1 ((is_some_iff o).1 v))

tenants_iff : (ls : List Listener) → (validate_tenant_listener_hostnames ls ≡ []) ↔ All MayStand ls
unfolding validate_tenant_listener_hostnames
tenants_iff ls =
    each_iff
      (λ i l.
        branch_iff (is_default_listener l) (λ _. tt, λ _. refl)
          (condition_iff _ _ (hostname_iff l.hostname)))
      0 ls

-- One of the two defaults, or a listener with a host name.
abbrev pub IsApart : List (String × String) → Listener → Type 0
IsApart options l = (l ≡ https_listener options) ⊎ ((l ≡ http_listener) ⊎ (l.hostname ≢ none))

not-default :
    (l : Listener) → l.name ≢ default_https → l.name ≢ default_http → MayStand l → l.hostname ≢ none
not-default l ne nf (inl (d, _)) =
    absurd (ground (arith, str_eq_iff l.name default_http, str_eq_iff l.name default_https))
not-default l ne nf (inr (_, h)) = h

map-All {ℓ κ μ} :
    {A : Type ℓ} {P : A → Type κ} {Q : A → Type μ} (xs : List A)
    → ((x : A) → P x → Q x)
    → All P xs
    → All Q xs
map-All [] f hs = tt
map-All (x ∷ xs) f (h, hs) = (f x h, map-All xs f hs)

beside_defaults :
    (options : List (String × String)) (l : Listener)
    → (l ≡ https_listener options)
      ⊎ ((l.name ≢ default_https) × ((l ≡ http_listener) ⊎ ((l.name ≢ default_http) × MayStand l)))
    → IsApart options l
beside_defaults options l (inl e) = inl e
beside_defaults options l (inr (ne, inl e)) = inr (inl e)
beside_defaults options l (inr (ne, inr (nf, h))) = inr (inr (not-default l ne nf h))

-- When the listeners have different names and ValidateTenantListenerHostnames accepts them, then after
-- SetDefaultListeners the names are still different, and every listener is the default one for HTTPS,
-- the default one for HTTP, or has a host name: only the two defaults, on two ports, have none.
pub set_default_listeners-AreApart :
    (ls : List Listener) (options : List (String × String))
    → Distinct (names ls)
    → validate_tenant_listener_hostnames ls ≡ []
    → Distinct (names (set_default_listeners ls options))
      × All (IsApart options) (set_default_listeners ls options)
unfolding set_default_listeners http_listener https_listener
set_default_listeners-AreApart ls options d h =
    let once = set_listener-Distinct ls http_listener d in
    let first = set_listener-others MayStand ls http_listener d ((tenants_iff ls).0 h) in
    let second =
      set_listener-others _ (set_listener ls http_listener) (https_listener options) once first in
    (
      set_listener-Distinct _ (https_listener options) once,
      map-All _ (λ l. beside_defaults options l) second,
    )
