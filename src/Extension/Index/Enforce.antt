-- ===== src/Extension/Index/Enforce.antt =====
-- Which indexed policies reach a route (internal/extensionserver/cache/index.go with
-- internal/extensionserver/mutate/tpp.go).
use network_services_operato.Common.{
  ℕ, String, string_eq, Bool, true, false, not, ◌&&◌, ◌==◌, ltb, any, ◌≡◌, refl, ap, subst, ◌∙◌,
  List, [], ◌∷◌, ◌++◌, Option, none, some, if◌then◌else◌, arith, Option-cases, inl, inr,
}
use network_services_operato.Extension.Index.Objects.{
  RuleSet, Tpp, OwaspCrs, inverted_paranoia_levels,
}
use network_services_operato.Extension.Index.Directives.{
  compute_coraza_directives, first_owasp, crs_directives,
}
use network_services_operato.Extension.Index.Build.{tpp_info}
use network_services_operato.Extension.Waf.Listener.{CorazaConfig}
use network_services_operato.Common.Result.{ok}
use network_services_operato.Extension.Codec.{Codec}
use network_services_operato.Extension.Xds.{Route}
use network_services_operato.Extension.Index.{TppInfo}
use network_services_operato.Extension.Programmed.Scan.{datum_gateway_tpp}
use network_services_operato.Extension.Waf.Routes.{has_directives, apply_tpp_route}
use network_services_operato.Extension.Waf.RoutesSafe.{
  enforced, policy_for, has_directives-length, mark_or, count_enforced, AreSettings,
  apply_tpp_route-result,
}

abbrev pub is_none {ℓ} : {A : Type ℓ} → Option A → Bool
is_none none = true
is_none (some a) = false

abbrev pub is_core : RuleSet → Bool
is_core rs = rs.type == "OWASPCoreRuleSet"

-- A core rule set whose detection level is below its blocking level.
abbrev pub is_inverted : RuleSet → Bool
is_inverted rs =
    let levels = rs.owasp_core_rule_set.paranoia_levels in
    is_core rs && ltb levels.detection levels.blocking

-- The policy has a core rule set, and none that is inverted.
abbrev pub is_enforceable : Tpp → Bool
is_enforceable t = not (any is_inverted t.rule_sets) && any is_core t.rule_sets

inverted-any :
    (rss : List RuleSet) → is_none (inverted_paranoia_levels rss) ≡ not (any is_inverted rss)
unfolding inverted_paranoia_levels
inverted-any [] = refl
inverted-any (rs ∷ rss) = ground (arith, inverted-any rss)

first_owasp-any : (rss : List RuleSet) → not (is_none (first_owasp rss)) ≡ any is_core rss
first_owasp-any [] = refl
first_owasp-any (rs ∷ rss) = ground (arith, first_owasp-any rss)

has_directives-append :
    (xs : List String) (y : String) (ys : List String) → has_directives (xs ++ (y ∷ ys)) ≡ true
has_directives-append [] y ys = refl
has_directives-append (x ∷ xs) y ys = refl

has_directives-crs :
    (quote : String → String) (base : List String) (t : Tpp) (crs : OwaspCrs)
    → has_directives (crs_directives quote t base (some crs)) ≡ true
has_directives-crs quote base t crs = has_directives-append base _ _

has_directives-compute :
    (quote : String → String) (base : List String) (t : Tpp)
    → has_directives (compute_coraza_directives quote t base) ≡ is_enforceable t
unfolding compute_coraza_directives
has_directives-compute quote base t = elim (Option-cases (inverted_paranoia_levels t.rule_sets)) [
  | inr (levels, inverted) ↦ ground (arith, inverted-any t.rule_sets)
  | inl in_order ↦ elim (Option-cases (first_owasp t.rule_sets)) [
    | inl absent ↦ ground (arith, first_owasp-any t.rule_sets)
    | inr (crs, present) ↦ ground (
      arith,
      has_directives-crs quote base t crs,
      inverted-any t.rule_sets,
      first_owasp-any t.rule_sets,
    )
  ]
]

abbrev pub when_enforceable : CorazaConfig → Tpp → TppInfo → Option TppInfo
when_enforceable cfg t info = if not cfg.disabled && is_enforceable t then some info else none

enforced-tpp_info :
    (cfg : CorazaConfig) (quote : String → String) (base : List String) (t : Tpp)
    → enforced cfg (some (tpp_info quote base t)) ≡ when_enforceable cfg t (tpp_info quote base t)
unfolding tpp_info
enforced-tpp_info cfg quote base t = ground (
  arith,
  has_directives-compute quote base t,
  has_directives-length (compute_coraza_directives quote t base),
)

-- If a route is governed by a policy as the index holds it and goes through the pass without an
-- error, then exactly if the pass is not disabled, the policy has a core rule set and none of its
-- core rule sets has a detection level below its blocking level, the route gets the policy's marker,
-- the Coraza settings built from its directives, and counts. Otherwise the marker and all settings of
-- filters are as they were before, and the route does not count.
pub tpp_info-enforced :
    (c : Codec) (cfg : CorazaConfig) (project : String) (tpps : List TppInfo) (gw : Option TppInfo)
    (rt rt' : Route c.Any) (n : ℕ) (quote : String → String) (base : List String) (t : Tpp)
    → policy_for c tpps gw rt ≡ some (tpp_info quote base t)
    → apply_tpp_route c cfg project tpps gw rt ≡ ok (rt', n)
    → let g = when_enforceable cfg t (tpp_info quote base t) in
      (datum_gateway_tpp rt' ≡ mark_or g (datum_gateway_tpp rt))
      × AreSettings c cfg g rt.typed_per_filter_config rt'.typed_per_filter_config
      × (n ≡ count_enforced g)
tpp_info-enforced c cfg project tpps gw rt rt' n quote base t governs e =
    let (mark, name, count, settings, action, match) =
      apply_tpp_route-result c cfg project tpps gw rt rt' n e in
    let same : enforced cfg (policy_for c tpps gw rt)
        ≡ when_enforceable cfg t (tpp_info quote base t) =
      ap (enforced cfg) governs ∙ enforced-tpp_info cfg quote base t in
    (
      mark ∙ ap (λ g. mark_or g (datum_gateway_tpp rt)) same,
      subst (λ g. AreSettings c cfg g rt.typed_per_filter_config rt'.typed_per_filter_config) same
          settings,
      count ∙ ap count_enforced same,
    )
