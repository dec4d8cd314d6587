-- ===== src/Extension/Connector/Routes.antt =====
-- The routes of a virtual host with a connector (internal/extensionserver/mutate/connector.go).
use network_services_operato.Common.{
  ℕ, suc, ◌+◌, String, Bool, true, false, ◌&&◌, List, [], ◌∷◌, Option, none, some, ◌==◌, string_eq,
  if◌then◌else◌,
}
use network_services_operato.Common.Go.{◌+s◌}
use network_services_operato.Common.Map.{lookup}
use network_services_operato.Common.Result.{Result, ok, err, ◌>>=◌}
use network_services_operato.Extension.Xds.{
  Action, route, direct_response, other_action, connect_matcher, Route, VirtualHost,
  RouteConfiguration,
}
use network_services_operato.Extension.Codec.{
  Codec, Error, build_connect_route as connect_error, build_offline_route as offline_error,
  convert_offline_route,
}
use network_services_operato.Extension.Connector.Name.{
  sanitize_id, connector_match_domain, append_unique,
}
use network_services_operato.Extension.Connector.Clusters.{Connectors}

abbrev pub offline_response_body : String
offline_response_body = "Tunnel not online"

abbrev pub has_key : String → Connectors → Bool
has_key k m = elim (lookup k m) [ none ↦ false | some info ↦ true ]

abbrev pub action_cluster : Action → String
action_cluster (route cluster upgrade_types) = cluster
action_cluster (direct_response dr) = ""
action_cluster other_action = ""

-- The outcome for one virtual host, or for all of them: what is new, and the two counters.
pub record Outcome (T : Type 0) : Type 0 where
  pub value : T
  pub mutated : ℕ
  pub converted : ℕ

module _ {Any : Type 0} where
  unfoldable pub route_cluster : Route Any → String
  route_cluster rt = action_cluster rt.action

  -- The first cluster of a connector that a route of the virtual host targets, "" if none does.
  unfoldable pub connector_cluster : Connectors → Connectors → List (Route Any) → String
  unfolding route_cluster
  connector_cluster replaced offline [] = ""
  connector_cluster replaced offline (rt ∷ rts) =
      let rest = connector_cluster replaced offline rts in
      if has_key (route_cluster rt) replaced
      then route_cluster rt
      else if has_key (route_cluster rt) offline
      then route_cluster rt
      else rest

  unfoldable pub set_route_direct_response : Route Any → ℕ → String → Route Any
  set_route_direct_response rt status body = record rt {
    action = direct_response (record { status = status; body = body });
  }

  -- The loop that rewrites the routes to the offline cluster.
  unfoldable pub convert_route : String → Route Any → Route Any
  unfolding route_cluster set_route_direct_response
  convert_route cluster rt =
      if route_cluster rt == cluster
      then set_route_direct_response rt 503 offline_response_body
      else rt

  unfoldable pub convert_routes : String → List (Route Any) → List (Route Any)
  unfolding convert_route
  convert_routes cluster [] = []
  convert_routes cluster (rt ∷ rts) = convert_route cluster rt ∷ convert_routes cluster rts

  unfoldable pub count_targeting : String → List (Route Any) → ℕ
  unfolding route_cluster
  count_targeting cluster [] = 0
  count_targeting cluster (rt ∷ rts) =
      let n = count_targeting cluster rts in if route_cluster rt == cluster then suc n else n

module _ (c : Codec) where
  open c use {Any, json_quoted}

  abbrev pub new_route : String → Action → Route Any
  new_route name action = record {
    name = name;
    match = connect_matcher;
    action = action;
    metadata = none;
    typed_per_filter_config = [];
  }

  unfoldable pub build_connect_route : String → String → Option (Route Any)
  build_connect_route name cluster =
      if json_quoted name && json_quoted cluster
      then some (new_route name (route cluster ("CONNECT" ∷ [])))
      else none

  unfoldable pub build_offline_route : String → Option (Route Any)
  build_offline_route name =
      if json_quoted name && json_quoted offline_response_body
      then some
          (new_route name (direct_response (record { status = 503; body = offline_response_body })))
      else none

  abbrev pub online_host :
      VirtualHost Any → Option (Route Any) → Result Error (Outcome (VirtualHost Any))
  online_host vh none = err (connect_error vh.name)
  online_host vh (some rt) = ok (record {
    value = record vh {
      routes = rt ∷ vh.routes;
      domains = append_unique vh.domains (connector_match_domain vh.name);
    };
    mutated = 1;
    converted = 0;
  })

  -- A route to convert is met only if one targets the cluster.
  abbrev pub offline_host :
      VirtualHost Any → String → Option (Route Any) → Result Error (Outcome (VirtualHost Any))
  offline_host vh cluster none = err (offline_error vh.name)
  offline_host vh cluster (some rt) =
      if json_quoted offline_response_body
      then ok (record {
        value = record vh { routes = convert_routes cluster (rt ∷ vh.routes) };
        mutated = 1;
        converted = count_targeting cluster (rt ∷ vh.routes);
      })
      else err (convert_offline_route vh.name)

  -- The body of the loop over the virtual hosts once the connector's cluster is known.
  unfoldable pub apply_connector :
      Connectors → VirtualHost Any → String → Result Error (Outcome (VirtualHost Any))
  unfolding build_connect_route build_offline_route convert_routes count_targeting
  apply_connector replaced vh cluster =
      if cluster == ""
      then ok (record { value = vh; mutated = 0; converted = 0 })
      else if has_key cluster replaced
      then online_host vh
          (build_connect_route ("connector-connect-" +s sanitize_id vh.name) cluster)
      else offline_host vh cluster
          (build_offline_route ("connector-offline-" +s sanitize_id vh.name))

  unfoldable pub apply_connector_host :
      Connectors → Connectors → VirtualHost Any → Result Error (Outcome (VirtualHost Any))
  unfolding apply_connector connector_cluster
  apply_connector_host replaced offline vh =
      apply_connector replaced vh (connector_cluster replaced offline vh.routes)

  unfoldable pub apply_connector_hosts :
      Connectors
      → Connectors
      → List (VirtualHost Any)
      → Result Error (Outcome (List (VirtualHost Any)))
  apply_connector_hosts replaced offline [] = ok (record { value = []; mutated = 0; converted = 0 })
  apply_connector_hosts replaced offline (vh ∷ vhs) = do
    o ← apply_connector_host replaced offline vh
    os ← apply_connector_hosts replaced offline vhs
    ok (record {
      value = o.value ∷ os.value;
      mutated = o.mutated + os.mutated;
      converted = o.converted + os.converted;
    })

  unfoldable pub apply_connector_routes :
      Connectors
      → Connectors
      → RouteConfiguration Any
      → Result Error (Outcome (RouteConfiguration Any))
  unfolding apply_connector_hosts apply_connector_host
  apply_connector_routes replaced offline rc = do
    o ← apply_connector_hosts replaced offline rc.virtual_hosts
    ok (record {
      value = record rc { virtual_hosts = o.value };
      mutated = o.mutated;
      converted = o.converted;
    })
