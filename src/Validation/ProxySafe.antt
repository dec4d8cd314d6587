-- ===== src/Validation/ProxySafe.antt =====
-- What the validator of proxies accepts.
use network_services_operato.Common.{
  ℕ, suc, String, ◌≡◌, ◌≢◌, ◌<◌, refl, ◌↔◌, ◌⊎◌, inl, inr, Bool, true, false, not, ◌&&◌, any, ltb,
  length, ◌==◌, string_eq, Option, none, some, List, [], ◌∷◌, All, arith, str_eq_iff, Bool-cases,
  ◌∙◌, subst, or_split, Distinct,
}
use network_services_operato.Common.Member.{has}
use network_services_operato.Validation.Errors.{
  FieldError, FieldPath, Url, Platform, Given, Either, when, is_some, ◌⋀◌,
}
use network_services_operato.Common.Member.{differs_iff}
use network_services_operato.Validation.Accept.{
  ◌⊗◌, when_iff, equal_iff, absent_iff, each_iff, given_iff, either_iff, present_iff, unless_iff,
  exempt_iff, map_nil_iff, and_iff, condition_iff, none_iff,
}
use network_services_operato.Validation.Network.{IsFqdn, fqdn_errors_iff}
use network_services_operato.Validation.Filters.{
  IsSupported, filters_iff, supported_rule_filters, supported_backend_ref_filters,
}
use network_services_operato.Validation.Proxy.{
  BackendTls, ProxyBackend, ProxyRule, HttpProxy, no_tls_hostname, is_blank, label_errors,
  hostname_errors, target_ip_errors, target_name_errors, endpoint_errors, connector_errors,
  validate_proxy_backend, validate_rule_backends, validate_proxy_rule, validate_proxy_rules,
  validate_http_proxy,
}

scheme_iff :
    (s : String) (e : FieldError)
    → (when (not (s == "http") && not (s == "https")) e ≡ []) ↔ ((s ≡ "http") ⊎ (s ≡ "https"))
unfolding when
scheme_iff s e = ground (arith, str_eq_iff s "http", str_eq_iff s "https")

-- The certificate of the backend can be checked against a name.
abbrev pub NamesHost : Option BackendTls → Type 0
NamesHost tls = (t : BackendTls) × (n : String) × (tls ≡ some t) × (t.hostname ≡ some n) × (n ≢ "")

is_blank_iff : (o : Option String) → (is_blank o ≡ false) ↔ ((n : String) × (o ≡ some n) × (n ≢ ""))
is_blank_iff none = (λ h. absurd (cc), λ v. absurd (let (n, e, _) = v in cc))
is_blank_iff (some n) = (
  λ h. (n, refl, λ e. absurd (let u = (str_eq_iff n "").1 e in cc)),
  λ v.
      let (m, e, ne) = v in
      let s : m ≡ n = cc in
      elim (Bool-cases (n == "")) [ inl h ↦ absurd (ne (s ∙ (str_eq_iff n "").0 h)) | inr h ↦ h ],
)

no_tls_hostname_iff : (tls : Option BackendTls) → (no_tls_hostname tls ≡ false) ↔ NamesHost tls
no_tls_hostname_iff none = (λ h. absurd (cc), λ v. absurd (let e = v.2 in cc))
no_tls_hostname_iff (some tls) = (
  λ h. let (n, e, ne) = (is_blank_iff tls.hostname).0 h in (tls, n, refl, e, ne),
  λ v.
      let (t, n, e, f, ne) = v in
      let s : t ≡ tls = cc in
      (is_blank_iff tls.hostname).1 (n, subst (λ t. t.hostname ≡ some n) s f, ne),
)

loopback_iff :
    (a b : Bool) (e : FieldError) → (when (a && not b) e ≡ []) ↔ ((a ≡ false) ⊎ (b ≡ true))
unfolding when
loopback_iff a b e = ground arith

redirect_iff :
    (n : ℕ) (b : Bool) (e : FieldError)
    → (when (not (ltb 0 n) && not b) e ≡ []) ↔ ((0 < n) ⊎ (b ≡ true))
unfolding when
redirect_iff n b e = ground arith

abbrev Fresh : List String → List String → Type 0
Fresh seen = All (λ x. has seen x ≡ false)

unseen_iff :
    (x : String) (seen ys : List String)
    → Fresh (x ∷ seen) ys ↔ (All (λ y. x ≢ y) ys ⋀ Fresh seen ys)
unseen_iff x seen [] = (λ _. (tt, tt), λ _. tt)
unseen_iff x seen (y ∷ ys) = (
  λ h.
      let (new, rest) = h in
      let (apart, fresh) = or_split (x == y) (has seen y) new in
      let (aparts, freshes) = (unseen_iff x seen ys).0 rest in
      (((differs_iff x y).0 apart, aparts), (fresh, freshes)),
  λ v.
      let ((apart, aparts), (fresh, freshes)) = v in
      let e : has (x ∷ seen) y ≡ false = rw ((differs_iff x y).1 apart) fresh in
      (e, (unseen_iff x seen ys).1 (aparts, freshes)),
)

module _ ⦃p : Platform⦄ where
  tls_iff :
      (u : Url) (ip : Option p.Ip) (tls : Option BackendTls) (e : FieldError)
      → (when ((u.scheme == "https") && is_some ip && no_tls_hostname tls) e ≡ [])
        ↔ (((u.scheme ≢ "https") ⊎ (ip ≡ none)) ⊎ NamesHost tls)
  tls_iff u ip tls e = condition_iff _ e (
      and_iff _ _ (and_iff _ _ (differs_iff u.scheme "https") (none_iff ip))
        (no_tls_hostname_iff tls))

  -- An address that a backend may have, of the loopback only with a connector.
  abbrev pub IsTargetIp : Bool → p.Ip → Type 0
  IsTargetIp has_connector ip =
      (p.is_unspecified ip ≡ false)
      ⋀ ((p.is_loopback ip ≡ false) ⊎ (has_connector ≡ true))
      ⋀ (p.is_link_local_unicast ip ≡ false)
      ⋀ (p.is_link_local_multicast ip ≡ false)

  target_ip_errors_iff :
      (has_connector : Bool) (path : FieldPath) (ip : p.Ip)
      → (target_ip_errors has_connector path ip ≡ []) ↔ IsTargetIp has_connector ip
  unfolding target_ip_errors
  target_ip_errors_iff has_connector path ip =
      when_iff _ _ ⊗ loopback_iff _ _ _ ⊗ when_iff _ _ ⊗ when_iff _ _

  -- A name that a backend may have, localhost only with a connector.
  abbrev pub IsTargetName : Bool → String → Type 0
  IsTargetName has_connector host = ((has_connector ≡ true) × (host ≡ "localhost")) ⊎ IsFqdn host

  target_name_errors_iff :
      (has_connector : Bool) (path : FieldPath) (host : String)
      → (target_name_errors has_connector path host ≡ []) ↔ IsTargetName has_connector host
  unfolding target_name_errors
  target_name_errors_iff true path host =
      let both = exempt_iff host "localhost" (fqdn_errors_iff path host) in
      (
        λ h. elim (both.0 h) [ inl e ↦ inl (refl, e) | inr q ↦ inr q ],
        λ v. both.1 (elim v [ inl (_, e) ↦ inl e | inr q ↦ inr q ]),
      )
  target_name_errors_iff false path host = (
    λ h. inr ((fqdn_errors_iff path host).0 h),
    λ v. elim v [ inl (e, _) ↦ absurd (cc) | inr q ↦ (fqdn_errors_iff path host).1 q ],
  )

  -- What a backend's endpoint must be once it is read as a URL.
  abbrev pub IsTarget : ProxyBackend → Url → Type 0
  IsTarget backend u =
      ((u.scheme ≡ "http") ⊎ (u.scheme ≡ "https"))
      ⋀ (u.user ≡ none)
      ⋀ Either (IsTargetIp (is_some backend.connector))
          (IsTargetName (is_some backend.connector) u.hostname) (p.parse_ip u.hostname)
      ⋀ (((u.scheme ≢ "https") ⊎ (p.parse_ip u.hostname ≡ none)) ⊎ NamesHost backend.tls)
      ⋀ (u.path ≡ "")
      ⋀ (u.raw_query ≡ "")
      ⋀ (u.fragment ≡ "")

  endpoint_iff :
      (backend : ProxyBackend) (path : FieldPath) (u : Url)
      → (endpoint_errors backend path u ≡ []) ↔ IsTarget backend u
  unfolding endpoint_errors
  endpoint_iff backend path u =
      scheme_iff u.scheme _
      ⊗ absent_iff _ _
      ⊗ either_iff (target_ip_errors_iff _ _) (target_name_errors_iff _ _ u.hostname)
          (p.parse_ip u.hostname)
      ⊗ tls_iff u (p.parse_ip u.hostname) backend.tls _
      ⊗ equal_iff u.path "" _
      ⊗ equal_iff u.raw_query "" _
      ⊗ equal_iff u.fragment "" _

  abbrev pub IsLabel : String → Type 0
  IsLabel name = p.label_faults name ≡ []

  label_errors_iff :
      (path : FieldPath) (name : String) → (label_errors path name ≡ []) ↔ IsLabel name
  unfolding label_errors
  label_errors_iff path name = map_nil_iff _ (p.label_faults name)

  abbrev pub IsBackend : ProxyBackend → Type 0
  IsBackend backend =
      ((u : Url) × (p.parse_url backend.endpoint ≡ some u) × IsTarget backend u)
      ⋀ Given (λ name. (name ≢ "") ⋀ IsLabel name) backend.connector
      ⋀ All (IsSupported supported_backend_ref_filters) backend.filters

  proxy_backend_iff :
      (backend : ProxyBackend) (path : FieldPath)
      → (validate_proxy_backend backend path ≡ []) ↔ IsBackend backend
  unfolding validate_proxy_backend connector_errors
  proxy_backend_iff backend path =
      present_iff _ (endpoint_iff backend path) (p.parse_url backend.endpoint)
      ⊗ given_iff (λ name. unless_iff name "" _ (label_errors_iff _ name)) backend.connector
      ⊗ filters_iff backend.filters supported_backend_ref_filters _

  abbrev pub IsRule : ProxyRule → Type 0
  IsRule rule =
      All (IsSupported supported_rule_filters) rule.filters
      ⋀ ((0 < length rule.backends)
          ⊎ (any (λ filter. filter.type == "RequestRedirect") rule.filters ≡ true))
      ⋀ All IsBackend rule.backends

  proxy_rule_iff :
      (rule : ProxyRule) (path : FieldPath) → (validate_proxy_rule rule path ≡ []) ↔ IsRule rule
  unfolding validate_proxy_rule validate_rule_backends
  proxy_rule_iff rule path =
      filters_iff rule.filters supported_rule_filters _
      ⊗ redirect_iff (length rule.backends) _ _
      ⊗ each_iff (λ i backend. proxy_backend_iff backend _) 0 rule.backends

  hostname_iff :
      (path : FieldPath) (seen : List String) (i : ℕ) (names : List String)
      → (hostname_errors path seen i names ≡ [])
        ↔ (All IsFqdn names ⋀ Fresh seen names ⋀ Distinct names)
  unfolding hostname_errors
  hostname_iff path seen i [] = (λ _. (tt, (tt, tt)), λ _. refl)
  hostname_iff path seen i (name ∷ names) = elim (Bool-cases (has seen name)) [
    | inl old ↦ (
      λ h.
          let (_, (new, _)) =
            (fqdn_errors_iff _ name ⊗ when_iff _ _ ⊗ hostname_iff path _ (suc i) names).0 h in
          absurd (cc),
      λ v. absurd (let (_, ((new, _), _)) = v in cc),
    )
    | inr new ↦
        let tail = hostname_iff path (name ∷ seen) (suc i) names in
        let parts = fqdn_errors_iff _ name ⊗ when_iff _ _ ⊗ tail in
        let fresh = unseen_iff name seen names in
        rw (hostname_errors, new)
          (
            λ h.
                let (q, (_, (qs, (f, d)))) = parts.0 h in
                let (apart, old) = fresh.0 f in ((q, qs), ((refl, old), (apart, d))),
            λ v.
                let ((q, qs), ((_, old), (apart, d))) = v in
                parts.1 (q, (refl, (qs, (fresh.1 (apart, old), d)))),
          )
  ]

  none_seen : (names : List String) → Fresh [] names
  none_seen [] = tt
  none_seen (name ∷ names) = (refl, none_seen names)

  names_iff :
      (path : FieldPath) (names : List String)
      → (hostname_errors path [] 0 names ≡ []) ↔ (All IsFqdn names × Distinct names)
  names_iff path names =
      let all = hostname_iff path [] 0 names in
      (λ h. let (q, (_, d)) = all.0 h in (q, d), λ v. all.1 (v.0, (none_seen names, v.1)))

  -- A proxy is accepted exactly if its host names are fully qualified and all different, its name is a
  -- label, and each rule has only supported filters and a backend or a redirect, where a backend's
  -- endpoint is an http or https URL without user, path, query or fragment, to a host that is not
  -- unspecified, of the link, or of the loopback unless the backend has a connector (of which the name
  -- is then a label), with a TLS host name if it is https to an address. A host given by name is fully
  -- qualified, or localhost with a connector; private addresses pass.
  pub validate_http_proxy-accepts_iff :
      (proxy : HttpProxy)
      → (validate_http_proxy proxy ≡ []) ↔ (
          (All IsFqdn proxy.hostnames × Distinct proxy.hostnames)
          ⋀ IsLabel proxy.name
          ⋀ All IsRule proxy.rules)
  unfolding validate_http_proxy validate_proxy_rules
  validate_http_proxy-accepts_iff proxy =
      names_iff _ proxy.hostnames
      ⊗ label_errors_iff _ proxy.name
      ⊗ each_iff (λ i rule. proxy_rule_iff rule _) 0 proxy.rules
