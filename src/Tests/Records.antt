-- ===== src/Tests/Records.antt =====
-- A recorded build (internal/extensionserver/server/programmedset.go).
use network_services_operato.Common.{
  Distinct, String, ◌≡◌, refl, true, List, [], ◌∷◌, any, ◌||◌, ◌==◌, string_eq, none, some,
  if◌then◌else◌,
}
use network_services_operato.Common.Map.{lookup, insert}
use network_services_operato.Extension.Xds.{
  endpoints, Cluster, Route, route, path_match, RouteConfiguration,
}
use network_services_operato.Extension.Programmed.Sorted.{IsSorted}
use network_services_operato.Extension.Programmed.Record.{
  keys_of, TlsCounts, new_programmed_recorder, snapshot, record_set,
}
use network_services_operato.Extension.Programmed.RecordSafe.{
  holds, size, is_from_listener, is_from_cluster, is_from_configuration, record_set-snapshot,
}
use network_services_operato.Tests.Samples.{Message, codec, listener}

abbrev tunnel : Cluster
tunnel = record {
  name = "tunnel";
  is_static = true;
  load_assignment = endpoints [];
  transport_socket = "envoy.transport_sockets.internal_upstream";
}

abbrev connect_route : Route Message
connect_route = record {
  name = "connect";
  match = path_match "/";
  action = route "tunnel" ("connect" ∷ []);
  metadata = none;
  typed_per_filter_config = [];
}

abbrev routes : List (RouteConfiguration Message)
routes =
    record {
      name = "rc";
      virtual_hosts =
          record { name = "vh"; domains = []; routes = connect_route ∷ []; metadata = none } ∷ [];
    }
    ∷ []

abbrev pruned : TlsCounts
pruned = record { pruned_chains = 2; pruned_secrets = 1; listeners_left_intact = 0 }

keys_run :
    (snapshot
      (record_set codec [] routes (tunnel ∷ tunnel ∷ []) "waf" pruned new_programmed_recorder)).keys
    ≡ ("connector_route", "rc##vh##connect" ∷ []) ∷ ("connector_cluster", "tunnel" ∷ []) ∷ []
unfolding record_set snapshot lookup insert
    network_services_operato.Extension.Programmed.Scan.is_replaced_connector_cluster
    network_services_operato.Extension.Programmed.Scan.is_offline_direct_response
    network_services_operato.Extension.Programmed.Scan.is_connect_route
    network_services_operato.Extension.Programmed.Scan.folds_to_connect
    network_services_operato.Extension.Programmed.Scan.datum_gateway_tpp
    network_services_operato.Extension.Programmed.Scan.sort_dedup
    network_services_operato.Extension.Programmed.Scan.connector_route_key
keys_run = refl

abbrev family : String
family = "connector_cluster"

record_set-snapshot_example :
    let ps = snapshot (
      record_set codec (listener ∷ []) routes (tunnel ∷ []) "waf" pruned new_programmed_recorder) in
    (holds family "tunnel" ps.keys
      ≡ any (is_from_listener codec family "tunnel" "waf") (listener ∷ [])
        || (any (is_from_cluster family "tunnel") (tunnel ∷ [])
            || any (is_from_configuration family "tunnel") routes))
    × Distinct (keys_of (lookup family ps.keys))
    × IsSorted (keys_of (lookup family ps.keys))
    × (lookup family ps.counts
        ≡ (if "tls_prune" == family then some 2 else size (lookup family ps.keys)))
record_set-snapshot_example =
    record_set-snapshot codec (listener ∷ []) routes (tunnel ∷ []) "waf" pruned
      new_programmed_recorder family "tunnel"
