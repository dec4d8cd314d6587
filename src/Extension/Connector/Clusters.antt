-- ===== src/Extension/Connector/Clusters.antt =====
-- The clusters of online connectors are replaced by tunnels
-- (internal/extensionserver/mutate/connector.go).
use network_services_operato.Common.{
  String, true, false, ◌&&◌, List, [], ◌∷◌, Option, none, some, if◌then◌else◌,
}
use network_services_operato.Common.{string_eq}
use network_services_operato.Common.Go.{◌+s◌, show_int}
use network_services_operato.Common.Map.{lookup, insert}
use network_services_operato.Common.Result.{Result, ok, err, ◌>>=◌}
use network_services_operato.Extension.Xds.{Cluster, internal}
use network_services_operato.Extension.Codec.{
  Codec, Error, build_connector_cluster as cluster_error,
}
use network_services_operato.Extension.Index.{ConnectorInfo, PolicyIndex, key_eq}
use network_services_operato.Extension.Connector.Name.{ClusterName, parse_connector_cluster_name}

abbrev pub find_upstream : PolicyIndex → ClusterName → Option String → Option ConnectorInfo
find_upstream idx p none = none
find_upstream idx p (some upstream_ns) =
    lookup
      (record {
        upstream_ns = upstream_ns;
        http_proxy_name = p.proxy_name;
        rule_index = p.rule_index;
      })
      idx.connectors

abbrev pub find_parsed : PolicyIndex → Option ClusterName → Option ConnectorInfo
find_parsed idx none = none
find_parsed idx (some p) = find_upstream idx p (lookup p.ds_ns idx.ds_to_us)

-- The three look-ups at the head of the loop; `none` is a `continue`.
unfoldable pub connector_of : PolicyIndex → String → Option ConnectorInfo
connector_of idx name = find_parsed idx (parse_connector_cluster_name name)

abbrev pub Connectors : Type 0
Connectors = List (String × ConnectorInfo)

pub record Replacement : Type 0 where
  pub clusters : List Cluster
  pub replaced : Connectors
  pub offline : Connectors

abbrev pub keep : Cluster → Replacement → Result Error Replacement
keep cl r = ok (record r { clusters = cl ∷ r.clusters })

module _ (c : Codec) where
  open c use {json_quoted}

  unfoldable pub build_connector_cluster : String → ConnectorInfo → String → Option Cluster
  build_connector_cluster name info internal_listener =
      let tunnel_address = info.target_host +s ":" +s show_int info.target_port in
      if json_quoted name
        && json_quoted internal_listener
        && json_quoted tunnel_address
        && json_quoted info.node_id
      then some (record {
        name = name;
        is_static = true;
        load_assignment = internal name internal_listener tunnel_address info.node_id;
        transport_socket = "envoy.transport_sockets.internal_upstream";
      })
      else none

  -- The loop over the clusters, with the two maps that it fills.
  unfoldable pub replace_from :
      PolicyIndex → String → List Cluster → Connectors → Connectors → Result Error Replacement
  replace_from idx listener [] replaced offline =
      ok (record { clusters = []; replaced = replaced; offline = offline })
  replace_from idx listener (cl ∷ cls) replaced offline = elim (connector_of idx cl.name) [
    | none ↦ replace_from idx listener cls replaced offline >>= keep cl
    | some info ↦ elim info.online [
      | false ↦ replace_from idx listener cls replaced (insert cl.name info offline) >>= keep cl
      | true ↦ elim (build_connector_cluster cl.name info listener) [
        | none ↦ err (cluster_error cl.name)
        | some nc ↦ replace_from idx listener cls (insert cl.name info replaced) offline >>= keep nc
      ]
    ]
  ]

  unfoldable pub replace_connector_clusters :
      List Cluster → PolicyIndex → String → Result Error Replacement
  unfolding replace_from connector_of build_connector_cluster
  replace_connector_clusters clusters idx listener = replace_from idx listener clusters [] []
