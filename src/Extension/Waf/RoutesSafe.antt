-- ===== src/Extension/Waf/RoutesSafe.antt =====
-- What the WAF pass leaves on a route (internal/extensionserver/mutate/tpp.go).
use network_services_operato.Common.{
  ltb, length, [], ◌∷◌, ℕ, String, true, false, ◌==◌, ◌≡◌, refl, ap, ap₂, sym, subst, ◌∙◌, List,
  Option, none, some, string_eq, if◌then◌else◌, arith, Bool-cases, Option-cases, inl, inr,
}
use network_services_operato.Common.Map.{lookup, lookup-insert}
use network_services_operato.Common.Result.{ok}
use network_services_operato.Extension.Xds.{Route}
use network_services_operato.Extension.Codec.{Codec}
use network_services_operato.Extension.Index.{TppInfo}
use network_services_operato.Extension.Waf.Listener.{
  CorazaConfig, build_coraza_configs_per_route, coraza_plugin_config_any, sanitize_json_path,
  extractor,
}
use network_services_operato.Extension.Waf.Routes.{
  eg_name, extract_eg_resource, first_targeting, has_directives, governing, find_route_tpp,
  inject_project_name_metadata, with_waf, apply_route_waf_config, apply_governing, governing_tpp,
  apply_tpp_route,
}
use network_services_operato.Extension.Programmed.Scan.{TppMark, datum_gateway_tpp}
use network_services_operato.Extension.Waf.Marker.{
  mark_of, project_name_of, inject-project_name_of, inject-extract, inject-datum_gateway_tpp,
  with_waf-datum_gateway_tpp, with_waf-project_name_of,
}

-- The policy that is enforced on a route that it governs: none if the pass is off or the policy has
-- no directives.
abbrev pub enforced : CorazaConfig → Option TppInfo → Option TppInfo
enforced cfg none = none
enforced cfg (some tpp) =
    if cfg.disabled then none else if ltb 0 (length tpp.directives) then some tpp else none

pub has_directives-length : (ds : List String) → has_directives ds ≡ ltb 0 (length ds)
has_directives-length [] = refl
has_directives-length (d ∷ ds) = ground arith

abbrev pub mark_or : Option TppInfo → Option TppMark → Option TppMark
mark_or none old = old
mark_or (some tpp) old = some (mark_of tpp)

abbrev pub count_enforced : Option TppInfo → ℕ
count_enforced none = 0
count_enforced (some tpp) = 1

-- The policy that governs a route: the first that targets the route that its metadata name, or else
-- the one of the gateway.
abbrev pub route_or_gateway : (name : String) → List TppInfo → Option TppInfo → Option TppInfo
route_or_gateway name tpps gw =
    if name == ""
    then gw
    else elim (first_targeting "HTTPRoute" name tpps) [ none ↦ gw | some tpp ↦ some tpp ]

governing-route_or_gateway :
    (name : String) (tpps : List TppInfo) (gw : Option TppInfo)
    → governing (find_route_tpp tpps name) gw ≡ route_or_gateway name tpps gw
unfolding find_route_tpp
governing-route_or_gateway name tpps gw =
    elim (Option-cases (first_targeting "HTTPRoute" name tpps)) [
      | inl absent ↦ ground arith
      | inr (tpp, first) ↦ ground arith
    ]

module _ (c : Codec) where
  open c use {Any, pack_plugin, pack_per_route, json_directives}

  -- The packed settings of the plugin for a route: the directives, encoded and without tabs and
  -- newlines, for the default directive set.
  abbrev pub IsCorazaSettings : CorazaConfig → List String → Any → Type 0
  IsCorazaSettings cfg directives a =
      (pc : Any) × (pack_plugin (record {
        log_format = "json";
        directives = sanitize_json_path (json_directives directives);
        default_directive = "coraza";
        trace_route_metadata_extractor = extractor cfg.trace_route_metadata_extractor;
      })
        ≡ some pc)
      × (pack_per_route cfg.plugin_name pc ≡ some a)

  build_coraza-IsCorazaSettings :
      (cfg : CorazaConfig) (directives : List String) (a : Any)
      → build_coraza_configs_per_route c directives cfg ≡ some a
      → IsCorazaSettings cfg directives a
  unfolding build_coraza_configs_per_route coraza_plugin_config_any
  build_coraza-IsCorazaSettings cfg directives a e =
      elim (Option-cases (coraza_plugin_config_any c directives cfg)) [
        | inl failed ↦ absurd (ground arith)
        | inr (pc, packed) ↦ (pc, packed, ground arith)
      ]

  -- The settings of a route's filters after the pass: with an enforced policy those built from its
  -- directives under the Coraza filter's name, and what the route had before under every other name.
  abbrev pub AreSettings : CorazaConfig → Option TppInfo → (old new : List (String × Any)) → Type 0
  AreSettings cfg none old new = (name : String) → lookup name new ≡ lookup name old
  AreSettings cfg (some tpp) old new =
      (a : Any) × IsCorazaSettings cfg tpp.directives a
      × ((name : String)
          → lookup name new ≡ (if cfg.filter_name == name then some a else lookup name old))

  -- A route as the pass leaves it, for an enforced policy.
  abbrev pub IsLeft : CorazaConfig → String → Option TppInfo → Route Any → Route Any → ℕ → Type 0
  IsLeft cfg project o rt rt' n =
      (datum_gateway_tpp rt' ≡ mark_or o (datum_gateway_tpp rt))
      × (project_name_of rt' ≡ project)
      × (n ≡ count_enforced o)
      × AreSettings cfg o rt.typed_per_filter_config rt'.typed_per_filter_config
      × (rt'.action ≡ rt.action)
      × (rt'.match ≡ rt.match)

  -- The same, for a governing policy `g`.
  abbrev pub IsWafResult :
      CorazaConfig → String → Option TppInfo → Route Any → Route Any → ℕ → Type 0
  IsWafResult cfg project g = IsLeft cfg project (enforced cfg g)

  unchanged :
      (cfg : CorazaConfig) (project : String) (g : Option TppInfo) (rt rt' : Route Any) (n : ℕ)
      → enforced cfg g ≡ none
      → rt' ≡ rt
      → project_name_of rt ≡ project
      → n ≡ 0
      → IsWafResult cfg project g rt rt' n
  unchanged cfg project g rt rt' n off s p count =
      rw (off, s) (refl, p, count, (λ name. refl), refl, refl)

  enforced-of_directives :
      (cfg : CorazaConfig) (tpp : TppInfo)
      → cfg.disabled ≡ false
      → has_directives tpp.directives ≡ true
      → enforced cfg (some tpp) ≡ some tpp
  enforced-of_directives cfg tpp on some_directives =
      ground (arith, has_directives-length tpp.directives)

  apply_route_waf-result :
      (cfg : CorazaConfig) (project : String) (rt rt' : Route Any) (tpp : TppInfo) (n : ℕ)
      → apply_route_waf_config c cfg rt tpp project ≡ ok (rt', n)
      → IsLeft cfg project (some tpp) rt rt' n
  unfolding apply_route_waf_config
  apply_route_waf-result cfg project rt rt' tpp n e =
      elim (Option-cases (build_coraza_configs_per_route c tpp.directives cfg)) [
        | inl failed ↦ absurd (ground arith)
        | inr (a, built) ↦
            let s : rt' ≡ with_waf rt tpp project cfg.filter_name a = ground arith in
            (
              ap datum_gateway_tpp s ∙ with_waf-datum_gateway_tpp rt tpp project cfg.filter_name a,
              ap project_name_of s ∙ with_waf-project_name_of rt tpp project cfg.filter_name a,
              ground arith,
              (
                a,
                build_coraza-IsCorazaSettings cfg tpp.directives a built,
                λ name.
                    ap (λ (r : Route Any). lookup name r.typed_per_filter_config) s
                    ∙ (unfold with_waf in
                        lookup-insert cfg.filter_name name a rt.typed_per_filter_config),
              ),
              ap (λ (r : Route Any). r.action) s ∙ (unfold with_waf in refl),
              ap (λ (r : Route Any). r.match) s ∙ (unfold with_waf in refl),
            )
      ]

  apply_governing-result :
      (cfg : CorazaConfig) (project : String) (rt rt' : Route Any) (g : Option TppInfo) (n : ℕ)
      → cfg.disabled ≡ false
      → project_name_of rt ≡ project
      → apply_governing c cfg project rt g ≡ ok (rt', n)
      → IsWafResult cfg project g rt rt' n
  unfolding apply_governing
  apply_governing-result cfg project rt rt' none n on p e =
      let s : rt' ≡ rt = ground arith in unchanged cfg project none rt rt' n refl s p (ground arith)
  apply_governing-result cfg project rt rt' (some tpp) n on p e =
      elim (Bool-cases (has_directives tpp.directives)) [
        | inr no_directives ↦
            let s : rt' ≡ rt = ground arith in
            unchanged cfg project (some tpp) rt rt' n
              (ground (arith, has_directives-length tpp.directives)) s p (ground arith)
        | inl some_directives ↦
            subst (λ o. IsLeft cfg project o rt rt' n)
              (sym (enforced-of_directives cfg tpp on some_directives))
              (apply_route_waf-result cfg project rt rt' tpp n (ground arith))
      ]

  enforced-of_disabled :
      (cfg : CorazaConfig) (g : Option TppInfo) → cfg.disabled ≡ true → enforced cfg g ≡ none
  enforced-of_disabled cfg none off = refl
  enforced-of_disabled cfg (some tpp) off = rw off

  -- The policy that governs the route, by the name that its metadata give.
  abbrev pub policy_for : List TppInfo → Option TppInfo → Route Any → Option TppInfo
  policy_for tpps gw rt = route_or_gateway (eg_name (extract_eg_resource rt.metadata)) tpps gw

  apply_tpp_route-governed :
      (cfg : CorazaConfig) (project : String) (tpps : List TppInfo) (gw : Option TppInfo)
      (rt rt' : Route Any) (n : ℕ)
      → apply_tpp_route c cfg project tpps gw rt ≡ ok (rt', n)
      → IsWafResult cfg project (governing_tpp c tpps gw rt) rt rt' n
  unfolding apply_tpp_route
  apply_tpp_route-governed cfg project tpps gw rt rt' n e = elim (Bool-cases cfg.disabled) [
    | inl off ↦
        let s : rt' ≡ stamped = ground arith in
        rw (enforced-of_disabled cfg (governing_tpp c tpps gw rt) off) (
          ap datum_gateway_tpp s ∙ inject-datum_gateway_tpp project rt,
          ap project_name_of s ∙ inject-project_name_of project rt,
          ground arith,
          λ filter.
              ap (λ (r : Route Any). lookup filter r.typed_per_filter_config) s
              ∙ inject-settings filter,
          ap (λ (r : Route Any). r.action) s ∙ inject-action,
          ap (λ (r : Route Any). r.match) s ∙ inject-match,
        )
    | inr on ↦
        let (mark, name, count, settings, action, match) =
          apply_governing-result cfg project stamped rt' (governing_tpp c tpps gw stamped) n on
            (inject-project_name_of project rt) (ground arith) in
        let same : governing_tpp c tpps gw stamped ≡ governing_tpp c tpps gw rt =
          ap (λ o. governing (find_route_tpp tpps (eg_name o)) gw) (inject-extract project rt) in
        (
          mark ∙ ap₂ (λ g o. mark_or (enforced cfg g) o) same (inject-datum_gateway_tpp project rt),
          name,
          count ∙ ap (λ g. count_enforced (enforced cfg g)) same,
          subst (λ g. AreSettings cfg (enforced cfg g) rt.typed_per_filter_config after) same
              (subst
                (λ old. AreSettings cfg (enforced cfg (governing_tpp c tpps gw stamped)) old after)
                inject-list settings),
          action ∙ inject-action,
          match ∙ inject-match,
        )
  ]
    where
      after : List (String × Any)
      after = rt'.typed_per_filter_config

      stamped : Route Any
      stamped = inject_project_name_metadata project rt

      inject-action : stamped.action ≡ rt.action
      inject-action = unfold inject_project_name_metadata in refl

      inject-list : stamped.typed_per_filter_config ≡ rt.typed_per_filter_config
      inject-list = unfold inject_project_name_metadata in refl

      inject-settings :
          (filter : String)
          → lookup filter stamped.typed_per_filter_config ≡ lookup filter rt.typed_per_filter_config
      inject-settings filter = ap (lookup filter) inject-list

      inject-match : stamped.match ≡ rt.match
      inject-match = unfold inject_project_name_metadata in refl

  -- If a route of a virtual host that the operator owns goes through the pass without an error, let
  -- the enforced policy be the one that governs it (the first policy that targets the route by its
  -- name, or else the gateway's) where the pass is on and that policy has directives. If there is one,
  -- the scanner of the programmed set reads it from the route, the Coraza filter's settings of the
  -- route are those built from its directives, and the route counts. If there is none, the marker and
  -- those settings are as they were before, and the route does not count. The project name is written
  -- in every case, and the settings of other filters, action and match are untouched.
  pub apply_tpp_route-result :
      (cfg : CorazaConfig) (project : String) (tpps : List TppInfo) (gw : Option TppInfo)
      (rt rt' : Route Any) (n : ℕ)
      → apply_tpp_route c cfg project tpps gw rt ≡ ok (rt', n)
      → IsWafResult cfg project (policy_for tpps gw rt) rt rt' n
  apply_tpp_route-result cfg project tpps gw rt rt' n e =
      subst (λ g. IsWafResult cfg project g rt rt' n)
        (governing-route_or_gateway (eg_name (extract_eg_resource rt.metadata)) tpps gw)
        (apply_tpp_route-governed cfg project tpps gw rt rt' n e)
