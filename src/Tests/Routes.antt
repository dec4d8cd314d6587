-- ===== src/Tests/Routes.antt =====
-- The index and the passes over routes and clusters (internal/extensionserver).
use network_services_operato.Common.{
  string_eq, ℕ, String, ◌≡◌, refl, true, false, List, [], ◌∷◌, none, some, Paired,
}
use network_services_operato.Common.Int.{pos}
use network_services_operato.Common.Result.{ok}
use network_services_operato.Extension.Xds.{
  Route, route, path_match, VirtualHost, RouteConfiguration, Cluster, endpoints, internal,
}
use network_services_operato.Extension.Xds.Struct.{
  Metadata, string_value, list_value, struct_value, nil, cons, empty, field,
}
use network_services_operato.Extension.Index.{TppInfo, ConnectorInfo, PolicyIndex}
use network_services_operato.Extension.Index.Objects.{
  Namespace, Tpp, RuleSet, HttpProxy, Backend, Condition, Connector, ConnectorStatus, Url,
}
use network_services_operato.Extension.Index.Objects
use network_services_operato.Extension.Index.Build.{build_policy_index_from_client, tpp_info}
use network_services_operato.Extension.Index.Govern.{IsGoverning, first_targeting-oldest}
use network_services_operato.Extension.Index.Enforce.{tpp_info-enforced}
use network_services_operato.Extension.Waf.Routes.{
  apply_tpp_route, apply_tpp_route_config, first_targeting, tpps_of, with_waf,
  inject_project_name_metadata,
}
use network_services_operato.Extension.Waf.RoutesSafe.{IsWafResult, apply_tpp_route-result}
use network_services_operato.Extension.Waf.ConfigSafe.{
  IsWafHost, owner, apply_tpp_route_config-result,
}
use network_services_operato.Extension.Connector.Clusters.{
  Connectors, Replacement, replace_connector_clusters,
}
use network_services_operato.Extension.Connector.ClustersSafe.{
  IsReplacement, replace_connector_clusters-result,
}
use network_services_operato.Extension.Connector.Routes.{Outcome, apply_connector_host, new_route}
use network_services_operato.Extension.Connector.RoutesSafe.{
  HostResult, apply_connector_host-result,
}
use network_services_operato.Extension.Programmed.Scan.{datum_gateway_tpp}
use network_services_operato.Extension.Waf.RoutesSafe.{AreSettings, mark_or, count_enforced}
use network_services_operato.Tests.Samples.{Message, per_route, plugin, codec, coraza}
use network_services_operato.Common.Go.{atoi, show_int, trim_prefix}
use network_services_operato.Common.Map.{insert, lookup}
use network_services_operato.Extension.Connector.Name.{
  append_unique, connector_match_domain, parse_connector_cluster_name, sanitize_id,
}
use network_services_operato.Extension.Index.Build.{
  connector_liveness, connector_status_liveness, parse_endpoint,
}
use network_services_operato.Extension.Index.Directives.{compute_coraza_directives}
use network_services_operato.Extension.Waf.Listener.{build_coraza_configs_per_route}
use network_services_operato.Extension.Waf.Routes.{
  extract_eg_resource, find_gateway_tpp, find_route_tpp,
}
use network_services_operato.Extension.Xds.Struct.{
  get_field, get_list_value, get_string_value, get_struct_value,
}

abbrev crs : RuleSet
crs = record {
  type = "OWASPCoreRuleSet";
  owasp_core_rule_set = record {
    paranoia_levels = record { blocking = 1; detection = 2 };
    inbound = 5;
    outbound = 4;
    rule_exclusions = none;
  };
}

abbrev policy : String → ℕ → Tpp
policy name created = record {
  namespace = "ns-1";
  name = name;
  labels = ("meta.datumapis.com/upstream-namespace", "shop") ∷ [];
  creation_timestamp = created;
  mode = "Enforce";
  sampling_percentage = 100;
  target_refs = record { kind = "Gateway"; name = "gw" } ∷ [];
  rule_sets = crs ∷ [];
}

-- Two policies of one gateway, the older one second.
abbrev policies : List Tpp
policies = policy "a" 2 ∷ policy "b" 1 ∷ []

abbrev quoted : String → String
quoted s = s

abbrev pub cluster : Objects.Cluster
cluster = record {
  namespaces = some (
      record {
        name = "ns-1";
        labels =
            ("meta.datumapis.com/upstream-namespace", "shop")
            ∷ ("meta.datumapis.com/upstream-cluster-name", "cluster-acme")
            ∷ [];
      }
      ∷ []);
  tpps = some policies;
  proxies = some (
      record {
        namespace = "ns-1";
        name = "web";
        labels = ("meta.datumapis.com/upstream-namespace", "shop") ∷ [];
        rules = (record { endpoint = "http://10.0.0.1:8080"; connector = some "tunnel" } ∷ []) ∷ [];
      }
      ∷ []);
  get_connector = λ ns name. some (record {
    annotations = [];
    status = record {
      conditions = record { type = "Ready"; status = "True" } ∷ [];
      connection_details = some (record { type = "PublicKey"; public_key_id = some "node-1" });
    };
  });
  parse_url = λ s. some (record { scheme = "http"; hostname = "10.0.0.1"; port = "8080" });
  unmarshal_status = λ s. none;
  quote = quoted;
}

abbrev online : ConnectorInfo
online = record {
  online = true;
  target_host = "10.0.0.1";
  target_port = pos 8080;
  node_id = "node-1";
}

abbrev pub index : PolicyIndex
index = record {
  ds_to_us = ("ns-1", "shop") ∷ [];
  project_names = ("ns-1", "acme") ∷ [];
  tpps = ("shop", tpp_info quoted [] (policy "b" 1) ∷ tpp_info quoted [] (policy "a" 2) ∷ []) ∷ [];
  connectors =
      (record { upstream_ns = "shop"; http_proxy_name = "web"; rule_index = pos 0 }, online) ∷ [];
}

pub build_run : build_policy_index_from_client cluster [] ≡ some index
unfolding build_policy_index_from_client insert lookup parse_endpoint trim_prefix atoi
    connector_liveness connector_status_liveness
build_run = refl

first_targeting-oldest_example :
    IsGoverning quoted [] "Gateway" "gw" "shop" policies
      (first_targeting "Gateway" "gw" (tpps_of codec index "shop"))
first_targeting-oldest_example =
    first_targeting-oldest codec cluster [] index policies "Gateway" "gw" "shop" build_run refl

abbrev gateway_metadata : Metadata
gateway_metadata =
    (
      "envoy-gateway",
      field "resources"
          (list_value (
            cons
              (struct_value (
                field "kind" (string_value "Gateway") (
                  field "namespace" (string_value "ns-1")
                    (field "name" (string_value "gw") empty))))
              nil))
          empty,
    )
    ∷ []

abbrev connector_cluster_name : String
connector_cluster_name = "httproute/ns-1/web/rule/0"

abbrev pub shop_route : Route Message
shop_route = record {
  name = "r-1";
  match = path_match "/";
  action = route connector_cluster_name [];
  metadata = none;
  typed_per_filter_config = [];
}

abbrev pub host_with : List (Route Message) → VirtualHost Message
host_with rts = record {
  name = "shop/vh";
  domains = "shop.example" ∷ [];
  routes = rts;
  metadata = some gateway_metadata;
}

abbrev governing_info : TppInfo
governing_info = tpp_info quoted [] (policy "b" 1)

abbrev waf_config : Message
waf_config = per_route "coraza-waf" (
    plugin (record {
      log_format = "json";
      directives = "{}";
      default_directive = "coraza";
      trace_route_metadata_extractor = none;
    }))

abbrev pub governed_route : Route Message
governed_route =
    with_waf (inject_project_name_metadata "acme" shop_route) governing_info "acme" "coraza-waf"
      waf_config

abbrev tpp_infos : List TppInfo
tpp_infos = tpp_info quoted [] (policy "b" 1) ∷ tpp_info quoted [] (policy "a" 2) ∷ []

waf_run :
    apply_tpp_route codec coraza "acme" tpp_infos (some governing_info) shop_route
    ≡ ok (governed_route, 1)
unfolding apply_tpp_route with_waf find_route_tpp extract_eg_resource inject_project_name_metadata
    lookup insert tpp_info compute_coraza_directives Objects.inverted_paranoia_levels
    build_coraza_configs_per_route
waf_run = refl

tpp_info-enforced_example :
    (datum_gateway_tpp governed_route
      ≡ mark_or (some governing_info) (datum_gateway_tpp shop_route))
    × AreSettings codec coraza
        (some governing_info)
        shop_route.typed_per_filter_config
        governed_route.typed_per_filter_config
    × (1 ≡ count_enforced (some governing_info))
unfolding tpp_info find_route_tpp compute_coraza_directives extract_eg_resource
    Objects.inverted_paranoia_levels
tpp_info-enforced_example =
    tpp_info-enforced codec coraza "acme" tpp_infos (some governing_info) shop_route governed_route
      1 quoted [] (policy "b" 1) refl waf_run

apply_tpp_route-result_example :
    IsWafResult codec coraza "acme" (some governing_info) shop_route governed_route 1
unfolding tpp_info find_route_tpp compute_coraza_directives extract_eg_resource
apply_tpp_route-result_example =
    apply_tpp_route-result codec coraza "acme" tpp_infos (some governing_info) shop_route
      governed_route 1 waf_run

abbrev pub route_config : List (Route Message) → RouteConfiguration Message
route_config rts = record { name = "rc"; virtual_hosts = host_with rts ∷ [] }

waf_config_run :
    apply_tpp_route_config codec index coraza (route_config (shop_route ∷ []))
    ≡ ok (route_config (governed_route ∷ []), 1)
unfolding apply_tpp_route_config extract_eg_resource lookup get_list_value get_field
    get_struct_value get_string_value find_route_tpp inject_project_name_metadata insert
    find_gateway_tpp tpp_info compute_coraza_directives Objects.inverted_paranoia_levels
    build_coraza_configs_per_route
waf_config_run = refl

apply_tpp_route_config-result_example :
    ((route_config (governed_route ∷ [])).name ≡ "rc")
    × Paired
        (λ vh vh'. IsWafHost codec index coraza (owner codec index vh) vh vh')
        (host_with (shop_route ∷ []) ∷ [])
        (host_with (governed_route ∷ []) ∷ [])
apply_tpp_route_config-result_example =
    apply_tpp_route_config-result codec index coraza (route_config (shop_route ∷ []))
      (route_config (governed_route ∷ [])) 1 waf_config_run

abbrev pub plain : Cluster
plain = record {
  name = connector_cluster_name;
  is_static = false;
  load_assignment = endpoints ("10.0.0.1" ∷ []);
  transport_socket = "";
}

abbrev pub tunnel : Cluster
tunnel = record {
  name = connector_cluster_name;
  is_static = true;
  load_assignment = internal connector_cluster_name "tunnels" "10.0.0.1:8080" "node-1";
  transport_socket = "envoy.transport_sockets.internal_upstream";
}

abbrev online_map : Connectors
online_map = (connector_cluster_name, online) ∷ []

abbrev replacement : Replacement
replacement = record { clusters = tunnel ∷ []; replaced = online_map; offline = [] }

replace_run : replace_connector_clusters codec (plain ∷ []) index "tunnels" ≡ ok replacement
unfolding replace_connector_clusters parse_connector_cluster_name atoi lookup show_int insert
replace_run = refl

replace_connector_clusters-result_example : IsReplacement "tunnels" index (plain ∷ []) replacement
replace_connector_clusters-result_example =
    replace_connector_clusters-result codec (plain ∷ []) index "tunnels" replacement replace_run

abbrev pub connect_route : Route Message
connect_route =
    new_route codec "connector-connect-shop-vh" (route connector_cluster_name ("CONNECT" ∷ []))

abbrev pub tunnelled_host : VirtualHost Message
tunnelled_host = record (host_with (connect_route ∷ shop_route ∷ [])) {
  domains = "shop.example" ∷ "shop-vh.connector.internal" ∷ [];
}

abbrev outcome : Outcome (VirtualHost Message)
outcome = record { value = tunnelled_host; mutated = 1; converted = 0 }

host_run : apply_connector_host codec online_map [] (host_with (shop_route ∷ [])) ≡ ok outcome
unfolding apply_connector_host lookup append_unique sanitize_id connector_match_domain
host_run = refl

apply_connector_host-result_example : HostResult online_map [] (host_with (shop_route ∷ [])) outcome
apply_connector_host-result_example =
    apply_connector_host-result codec online_map [] (host_with (shop_route ∷ [])) outcome host_run
