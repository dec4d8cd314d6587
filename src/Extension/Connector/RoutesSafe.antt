-- ===== src/Extension/Connector/RoutesSafe.antt =====
-- What the connector pass does to a virtual host
-- (internal/extensionserver/mutate/connector.go).
use network_services_operato.Common.{
  String, true, false, ◌≡◌, ◌≢◌, refl, subst, sym, ap, ◌∙◌, List, [], ◌∷◌, some, ◌==◌, length,
  string_eq, str_eq_iff, Paired, arith, Bool-cases, Option-cases, inl, inr, ◌⊎◌,
}
use network_services_operato.Common.Go.{◌+s◌}
use network_services_operato.Common.Result.{ok}
use network_services_operato.Extension.Xds.{route, direct_response, Route, VirtualHost}
use network_services_operato.Extension.Codec.{Codec}
use network_services_operato.Extension.Connector.Name.{
  sanitize_id, connector_match_domain, append_unique,
}
use network_services_operato.Extension.Connector.Clusters.{Connectors}
use network_services_operato.Extension.Connector.Routes.{
  offline_response_body, Outcome, route_cluster, connector_cluster, set_route_direct_response,
  convert_route, convert_routes, count_targeting, new_route, online_host, offline_host,
  build_connect_route, build_offline_route, apply_connector, apply_connector_host,
}
use network_services_operato.Extension.Programmed.Scan.{
  is_connect_route, is_offline_direct_response, folds_to_connect,
}
use network_services_operato.Extension.Connector.First.{
  IsOnline, IsOffline, IsFirst, connector_cluster-IsFirst, first_known, leading_to,
  count_targeting-length,
}

-- What the conversion keeps of a route: everything but the action.
module _ {Any : Type 0} where
  -- A route to the cluster answers 503 with the tunnel's message, another one is unchanged; the
  -- name, the match, the metadata and the settings of the filters are kept.
  pub record IsConverted (cluster : String) (rt rt' : Route Any) : Type 0 where
    pub name : rt'.name ≡ rt.name
    pub match : rt'.match ≡ rt.match
    pub metadata : rt'.metadata ≡ rt.metadata
    pub filters : rt'.typed_per_filter_config ≡ rt.typed_per_filter_config
    pub action :
        ((route_cluster rt ≡ cluster) × (is_offline_direct_response rt' ≡ true))
        ⊎ ((route_cluster rt ≢ cluster) × (rt'.action ≡ rt.action))
    pub leaves : route_cluster rt' ≢ cluster

  set_route_direct_response-IsConverted :
      (cluster : String) (rt : Route Any)
      → cluster ≢ ""
      → route_cluster rt ≡ cluster
      → IsConverted cluster rt (set_route_direct_response rt 503 offline_response_body)
  unfolding set_route_direct_response is_offline_direct_response route_cluster
  set_route_direct_response-IsConverted cluster rt h same = record {
    name = refl;
    match = refl;
    metadata = refl;
    filters = refl;
    action = inl (same, refl);
    leaves = λ e. h (sym e);
  }

  kept-IsConverted :
      (cluster : String) (rt : Route Any) → route_cluster rt ≢ cluster → IsConverted cluster rt rt
  kept-IsConverted cluster rt other = record {
    name = refl;
    match = refl;
    metadata = refl;
    filters = refl;
    action = inr (other, refl);
    leaves = other;
  }

  convert_route-of_target :
      (cluster : String) (rt : Route Any)
      → route_cluster rt == cluster ≡ true
      → convert_route cluster rt ≡ set_route_direct_response rt 503 offline_response_body
  unfolding convert_route
  convert_route-of_target cluster rt same = rw same

  convert_route-of_other :
      (cluster : String) (rt : Route Any)
      → route_cluster rt == cluster ≡ false
      → convert_route cluster rt ≡ rt
  unfolding convert_route
  convert_route-of_other cluster rt other = rw other

  convert_route-IsConverted :
      (cluster : String) (rt : Route Any)
      → cluster ≢ ""
      → IsConverted cluster rt (convert_route cluster rt)
  convert_route-IsConverted cluster rt h = elim (Bool-cases (route_cluster rt == cluster)) [
    | inl same ↦
        subst (IsConverted cluster rt) (sym (convert_route-of_target cluster rt same))
          (set_route_direct_response-IsConverted cluster rt h ((str_eq_iff _ _).0 same))
    | inr other ↦
        subst (IsConverted cluster rt) (sym (convert_route-of_other cluster rt other)) (
          kept-IsConverted cluster rt
            (λ e. ground (arith, (str_eq_iff (route_cluster rt) cluster))))
  ]

  convert_routes-IsConverted :
      (cluster : String) (rts : List (Route Any))
      → cluster ≢ ""
      → Paired (IsConverted cluster) rts (convert_routes cluster rts)
  unfolding convert_routes
  convert_routes-IsConverted cluster [] h = tt
  convert_routes-IsConverted cluster (rt ∷ rts) h =
      (convert_route-IsConverted cluster rt h, convert_routes-IsConverted cluster rts h)

  -- A virtual host after the pass, by the first connector that its routes lead to.
  pub data HostResult (replaced offline : Connectors) (vh : VirtualHost Any)
      (o : Outcome (VirtualHost Any)) : Type 0 where
    -- None: nothing happens.
    untouched :
        IsFirst replaced offline vh.routes ""
        → o ≡ record { value = vh; mutated = 0; converted = 0 }
        → HostResult replaced offline vh o
    -- An online one: a CONNECT route to its cluster goes first, with no settings for any filter, the
    -- host's own domain is added, and the host's routes stay as they are.
    online :
        (cluster : String) (rt : Route Any)
        → IsFirst replaced offline vh.routes cluster
        → IsOnline replaced cluster
        → is_connect_route rt ≡ true
        → route_cluster rt ≡ cluster
        → rt.typed_per_filter_config ≡ []
        → o ≡ record {
          value = record vh {
            routes = rt ∷ vh.routes;
            domains = append_unique vh.domains (connector_match_domain vh.name);
          };
          mutated = 1;
          converted = 0;
        }
        → HostResult replaced offline vh o
    -- An offline one: a route that answers 503 goes first, and of the host's routes exactly those to
    -- its cluster, which are counted, answer 503 as well.
    offline :
        (cluster : String) (rt : Route Any) (rts : List (Route Any))
        → IsFirst replaced offline vh.routes cluster
        → IsOffline replaced offline cluster
        → is_offline_direct_response rt ≡ true
        → Paired (IsConverted cluster) vh.routes rts
        → o ≡ record {
          value = record vh { routes = rt ∷ rts };
          mutated = 1;
          converted = length (leading_to cluster vh.routes);
        }
        → HostResult replaced offline vh o

module _ (c : Codec) where
  open c use {Any}

  build_connect_route-eq :
      (name cluster : String) (rt : Route Any)
      → build_connect_route c name cluster ≡ some rt
      → rt ≡ new_route c name (route cluster ("CONNECT" ∷ []))
  unfolding build_connect_route
  build_connect_route-eq name cluster rt e = ground arith

  build_offline_route-eq :
      (name : String) (rt : Route Any)
      → build_offline_route c name ≡ some rt
      → rt
        ≡ new_route c name (direct_response (record { status = 503; body = offline_response_body }))
  unfolding build_offline_route
  build_offline_route-eq name rt e = ground arith

  apply_online :
      (replaced off : Connectors) (vh : VirtualHost Any) (cluster name : String)
      (o : Outcome (VirtualHost Any))
      → IsFirst replaced off vh.routes cluster
      → IsOnline replaced cluster
      → online_host c vh (build_connect_route c name cluster) ≡ ok o
      → HostResult replaced off vh o
  apply_online replaced off vh cluster name o found on e =
      elim (Option-cases (build_connect_route c name cluster)) [
        | inl failed ↦ absurd (ground arith)
        | inr (rt, built) ↦
            let made = build_connect_route-eq name cluster rt built in
            online cluster rt found on
              (ap is_connect_route made ∙ (unfold is_connect_route folds_to_connect in refl))
              (ap route_cluster made ∙ (unfold route_cluster in refl))
              (ap (λ (r : Route Any). r.typed_per_filter_config) made) (ground arith)
      ]

  apply_offline :
      (replaced off : Connectors) (vh : VirtualHost Any) (cluster name : String)
      (o : Outcome (VirtualHost Any))
      → IsFirst replaced off vh.routes cluster
      → cluster ≢ ""
      → IsOffline replaced off cluster
      → offline_host c vh cluster (build_offline_route c name) ≡ ok o
      → HostResult replaced off vh o
  apply_offline replaced off vh cluster name o found some_cluster key e =
      elim (Option-cases (build_offline_route c name)) [
        | inl failed ↦ absurd (ground arith)
        | inr (rt, built) ↦
            let made = build_offline_route-eq name rt built in
            let leads : route_cluster rt ≡ "" =
              ap route_cluster made ∙ (unfold route_cluster in refl) in
            let stays : route_cluster rt == cluster ≡ false =
              ground (arith, str_eq_iff (route_cluster rt) cluster) in
            offline cluster rt (convert_routes cluster vh.routes) found key
              (ap is_offline_direct_response made ∙ (unfold is_offline_direct_response in refl))
              (convert_routes-IsConverted cluster vh.routes some_cluster)
              (unfold convert_routes count_targeting in
                ground (
                  arith,
                  convert_route-of_other cluster rt stays,
                  count_targeting-length cluster vh.routes,
                ))
      ]

  -- If the pass over a virtual host succeeds, then by the first of its routes that leads to the cluster
  -- of a connector, online or offline: if there is none, the host is untouched; if it is online, a
  -- CONNECT route to the cluster goes first and the host's own domain is added; if it is offline, a
  -- route that answers 503 goes first, and the routes to the cluster, which are counted, answer 503.
  pub apply_connector_host-result :
      (replaced off : Connectors) (vh : VirtualHost Any) (o : Outcome (VirtualHost Any))
      → apply_connector_host c replaced off vh ≡ ok o
      → HostResult replaced off vh o
  unfolding apply_connector_host apply_connector
  apply_connector_host-result replaced off vh o e =
      let cluster = connector_cluster replaced off vh.routes in
      let first : IsFirst replaced off vh.routes cluster =
        connector_cluster-IsFirst replaced off vh.routes in
      elim (Bool-cases (cluster == "")) [
        | inl no_cluster ↦
            untouched
              (subst (IsFirst replaced off vh.routes) ((str_eq_iff cluster "").0 no_cluster) first)
              (ground arith)
        | inr some_cluster ↦
            let named : cluster ≢ "" = λ x. ground (arith, str_eq_iff cluster "") in
            elim (first_known replaced off vh.routes cluster first named) [
              | inl (info, on) ↦
                  apply_online replaced off vh cluster ("connector-connect-" +s sanitize_id vh.name)
                    o first (info, on) (ground arith)
              | inr (not_on, (info, is_off)) ↦
                  apply_offline replaced off vh cluster
                    ("connector-offline-" +s sanitize_id vh.name) o first named
                    (not_on, (info, is_off)) (ground arith)
            ]
      ]
