-- ===== src/Extension/Waf/ConfigSafe.antt =====
-- The WAF pass over a whole route configuration (internal/extensionserver/mutate/tpp.go).
use network_services_operato.Common.{
  ℕ, String, ◌≡◌, refl, sym, List, [], ◌∷◌, Option, none, some, ◌==◌, string_eq, if◌then◌else◌,
  arith, subst, Paired, Bool-cases, Option-cases, inl, inr,
}
use network_services_operato.Common.Map.{lookup}
use network_services_operato.Common.Result.{ok, both-eq-ok, counted-eq-ok}
use network_services_operato.Extension.Xds.{Route, VirtualHost, RouteConfiguration}
use network_services_operato.Extension.Codec.{Codec}
use network_services_operato.Extension.Index.{TppInfo, PolicyIndex}
use network_services_operato.Extension.Waf.Listener.{CorazaConfig}
use network_services_operato.Extension.Waf.Routes.{
  EgResource, kind_gateway, extract_eg_resource, find_gateway_tpp, first_targeting, project_name,
  tpps_of, apply_tpp_route, apply_tpp_routes, apply_owned, apply_tpp_virtual_host,
  apply_tpp_virtual_hosts, apply_tpp_route_config,
}
use network_services_operato.Extension.Waf.RoutesSafe.{
  IsWafResult, policy_for, apply_tpp_route-result,
}

module _ (c : Codec) where
  open c use {Any}

  -- The gateway of a virtual host that the operator owns, and the upstream namespace.
  abbrev pub owner_in : PolicyIndex → EgResource → Option (EgResource × String)
  owner_in idx gw =
      if gw.kind == kind_gateway
      then elim (lookup gw.namespace idx.ds_to_us) [ none ↦ none | some ns ↦ some (gw, ns) ]
      else none

  abbrev pub owner : PolicyIndex → VirtualHost Any → Option (EgResource × String)
  owner idx vh = elim (extract_eg_resource vh.metadata) [ none ↦ none | some gw ↦ owner_in idx gw ]

  abbrev pub IsWafRoutes :
      CorazaConfig
      → String
      → List TppInfo
      → Option TppInfo
      → List (Route Any)
      → List (Route Any)
      → Type 0
  IsWafRoutes cfg project tpps gw =
      Paired (λ rt rt'. (n : ℕ) × IsWafResult c cfg project (policy_for c tpps gw rt) rt rt' n)

  abbrev pub IsWafHost :
      PolicyIndex
      → CorazaConfig
      → Option (EgResource × String)
      → VirtualHost Any
      → VirtualHost Any
      → Type 0
  IsWafHost idx cfg none vh vh' = vh' ≡ vh
  IsWafHost idx cfg (some (gw, ns)) vh vh' =
      (vh'.name ≡ vh.name)
      × (vh'.domains ≡ vh.domains)
      × (vh'.metadata ≡ vh.metadata)
      × IsWafRoutes cfg (project_name c idx gw.namespace) (tpps_of c idx ns)
          (first_targeting "Gateway" gw.name (tpps_of c idx ns)) vh.routes vh'.routes

  apply_tpp_routes-result :
      (cfg : CorazaConfig) (project : String) (tpps : List TppInfo) (gw : Option TppInfo)
      (rts rts' : List (Route Any)) (n : ℕ)
      → apply_tpp_routes c cfg project tpps gw rts ≡ ok (rts', n)
      → IsWafRoutes cfg project tpps gw rts rts'
  unfolding apply_tpp_routes
  apply_tpp_routes-result cfg project tpps gw [] rts' n e =
      let s : [] ≡ rts' = cc in subst (IsWafRoutes cfg project tpps gw []) s tt
  apply_tpp_routes-result cfg project tpps gw (rt ∷ rts) rts' n e =
      let (rt1, i, rts1, j, er, es, el, en) =
        both-eq-ok _ (apply_tpp_route c cfg project tpps gw rt)
          (apply_tpp_routes c cfg project tpps gw rts) _ _ e in
      subst (IsWafRoutes cfg project tpps gw (rt ∷ rts)) (sym el) (
        (i, apply_tpp_route-result c cfg project tpps gw rt rt1 i er),
        apply_tpp_routes-result cfg project tpps gw rts rts1 j es,
      )

  apply_tpp_virtual_host-result :
      (idx : PolicyIndex) (cfg : CorazaConfig) (vh vh' : VirtualHost Any) (n : ℕ)
      → apply_tpp_virtual_host c idx cfg vh ≡ ok (vh', n)
      → IsWafHost idx cfg (owner idx vh) vh vh'
  unfolding apply_tpp_virtual_host lookup find_gateway_tpp
  apply_tpp_virtual_host-result idx cfg vh vh' n e =
      elim (Option-cases (extract_eg_resource vh.metadata)) [
        | inl absent ↦ with_owner none (ground arith) (ground arith)
        | inr (gw, present) ↦ elim (Bool-cases (gw.kind == kind_gateway)) [
          | inr other ↦ with_owner none (ground arith) (ground arith)
          | inl gateway ↦ elim (Option-cases (lookup gw.namespace idx.ds_to_us)) [
            | inl foreign ↦ with_owner none (ground arith) (ground arith)
            | inr (ns, owned) ↦
                with_owner (some (gw, ns)) (ground arith) (owned_host gw ns (ground arith))
          ]
        ]
      ]
    where
      with_owner :
          (o : Option (EgResource × String))
          → owner idx vh ≡ o
          → IsWafHost idx cfg o vh vh'
          → IsWafHost idx cfg (owner idx vh) vh vh'
      with_owner o s h = subst (λ w. IsWafHost idx cfg w vh vh') (sym s) h

      owned_host :
          (gw : EgResource) (ns : String)
          → apply_owned c idx cfg vh gw (some ns) ≡ ok (vh', n)
          → IsWafHost idx cfg (some (gw, ns)) vh vh'
      owned_host gw ns h =
          let (rts, er, el) = counted-eq-ok _ (apply_tpp_routes c cfg _ _ _ vh.routes) _ _ h in
          subst (IsWafHost idx cfg (some (gw, ns)) vh) (sym el)
            (refl, refl, refl, apply_tpp_routes-result cfg _ _ _ vh.routes rts n er)

  apply_tpp_virtual_hosts-result :
      (idx : PolicyIndex) (cfg : CorazaConfig) (vhs vhs' : List (VirtualHost Any)) (n : ℕ)
      → apply_tpp_virtual_hosts c idx cfg vhs ≡ ok (vhs', n)
      → Paired (λ vh vh'. IsWafHost idx cfg (owner idx vh) vh vh') vhs vhs'
  unfolding apply_tpp_virtual_hosts
  apply_tpp_virtual_hosts-result idx cfg [] vhs' n e =
      let s : [] ≡ vhs' = cc in
      subst (Paired (λ vh vh'. IsWafHost idx cfg (owner idx vh) vh vh') []) s tt
  apply_tpp_virtual_hosts-result idx cfg (vh ∷ vhs) vhs' n e =
      let (vh1, i, vhs1, j, eh, es, el, en) =
        both-eq-ok _ (apply_tpp_virtual_host c idx cfg vh) (apply_tpp_virtual_hosts c idx cfg vhs) _
          _ e in
      subst (Paired (λ v v'. IsWafHost idx cfg (owner idx v) v v') (vh ∷ vhs)) (sym el) (
        apply_tpp_virtual_host-result idx cfg vh vh1 i eh,
        apply_tpp_virtual_hosts-result idx cfg vhs vhs1 j es,
      )

  -- If the pass over a route configuration succeeds, the virtual hosts are the same ones in the same
  -- order. One that the operator does not own (its metadata name no Gateway, or one in a namespace
  -- that the index does not know) is unchanged. One that it owns keeps its name, domains and metadata,
  -- and each of its routes carries the project of the namespace, with its action and match untouched.
  -- A route whose governing policy has directives, while the pass is on, has that policy's marker and
  -- the Coraza settings built from its directives; any other route has both as they were before.
  pub apply_tpp_route_config-result :
      (idx : PolicyIndex) (cfg : CorazaConfig) (rc rc' : RouteConfiguration Any) (n : ℕ)
      → apply_tpp_route_config c idx cfg rc ≡ ok (rc', n)
      → (rc'.name ≡ rc.name)
        × Paired
            (λ vh vh'. IsWafHost idx cfg (owner idx vh) vh vh')
            rc.virtual_hosts
            rc'.virtual_hosts
  unfolding apply_tpp_route_config
  apply_tpp_route_config-result idx cfg rc rc' n e =
      let (vhs, es, el) =
        counted-eq-ok _ (apply_tpp_virtual_hosts c idx cfg rc.virtual_hosts) _ _ e in
      rw el (refl, apply_tpp_virtual_hosts-result idx cfg rc.virtual_hosts vhs n es)
