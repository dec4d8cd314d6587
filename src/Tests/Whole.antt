-- ===== src/Tests/Whole.antt =====
-- A run of the whole hook (internal/extensionserver/server/server.go).
use network_services_operato.Common.{◌≡◌, refl, [], ◌∷◌, some, All}
use network_services_operato.Common.Result.{ok}
use network_services_operato.Extension.Xds.{Hcm}
use network_services_operato.Extension.Hcm.Each.{each_hcm}
use network_services_operato.Extension.Index.{PolicyIndex}
use network_services_operato.Extension.Index.Build.{build_policy_index_from_client}
use network_services_operato.Extension.Waf.Listener.{coraza_filter}
use network_services_operato.Extension.LocalReply.Inject.{build_local_reply_config}
use network_services_operato.Extension.Connector.ClustersSafe.{AreTunnelled}
use network_services_operato.Extension.Hook.{
  ServerConfig, Snapshot, mutate_snapshot, prune_snapshot, post_translate_modify,
}
use network_services_operato.Extension.Hook.Run.{post_translate_modify-AreTunnelled}
use network_services_operato.Extension.Hook.Protected.{IsGuarded, post_translate_modify-IsGuarded}
use network_services_operato.Extension.Tls.Prune.{
  prune_invalid_tls_secrets, bad_secrets, tls_certificate_usable, chain_references_bad_secret,
  chain_sds_secret_names,
}
use network_services_operato.Tests.Samples.{
  Message, codec, coraza, page, bare_manager, manager_filter, chain_of, listener,
}
use network_services_operato.Tests.Listeners.{
  coraza-IsEnabled, packed_coraza, secret, secrets, x509,
}
use network_services_operato.Tests.Routes.{
  cluster, index, build_run, route_config, shop_route, governed_route, tunnelled_host,
  connect_route, plain, tunnel,
}
use network_services_operato.Common.Go.{atoi, show_int}
use network_services_operato.Common.Map.{insert, lookup}
use network_services_operato.Common.Result.{traverse}
use network_services_operato.Extension.Connector.Clusters.{replace_connector_clusters}
use network_services_operato.Extension.Connector.Name.{
  append_unique, connector_match_domain, parse_connector_cluster_name, sanitize_id,
}
use network_services_operato.Extension.Connector.Routes.{apply_connector_routes}
use network_services_operato.Extension.Hcm.{visit_chain, visit_filter, visit_listener}
use network_services_operato.Extension.Index.Build.{tpp_info}
use network_services_operato.Extension.Index.Directives.{compute_coraza_directives}
use network_services_operato.Extension.Index.Objects.{inverted_paranoia_levels}
use network_services_operato.Extension.LocalReply.Inject.{inject_local_reply_config}
use network_services_operato.Extension.Waf.Listener.{
  build_coraza_configs_per_route, inject_coraza_listener_filters,
}
use network_services_operato.Extension.Waf.Routes.{
  apply_tpp_route_config, extract_eg_resource, find_gateway_tpp, find_route_tpp,
  inject_project_name_metadata, with_waf,
}
use network_services_operato.Extension.Xds.Struct.{
  get_field, get_list_value, get_string_value, get_struct_value,
}
use network_services_operato.Extension.Tls.Prune.{chain_bad_secret_names, kept_secrets}

abbrev config : ServerConfig
config = record {
  coraza = coraza;
  connector_internal_listener = "tunnels";
  coraza_route_base_directives = [];
  local_reply = page;
}

abbrev request : Snapshot Message
request = record {
  clusters = plain ∷ [];
  secrets = secrets;
  listeners = listener ∷ [];
  routes = route_config (shop_route ∷ []) ∷ [];
}

abbrev guarded_manager : Hcm Message
guarded_manager = record bare_manager {
  http_filters = coraza_filter coraza packed_coraza ∷ [];
  local_reply_config = some (build_local_reply_config page);
}

-- The chain of the expired certificate is gone.
abbrev response : Snapshot Message
response = record {
  clusters = tunnel ∷ [];
  secrets = secret "good" 100 ∷ [];
  listeners =
      record listener {
        filter_chains =
            chain_of "good.example" ("good" ∷ []) (manager_filter guarded_manager ∷ []) ∷ [];
      }
      ∷ [];
  routes =
      record (route_config []) {
        virtual_hosts = record tunnelled_host { routes = connect_route ∷ governed_route ∷ [] } ∷ [];
      }
      ∷ [];
}

-- The response before the certificates are looked at.
abbrev mutated_request : Snapshot Message
mutated_request = record response {
  secrets = secrets;
  listeners =
      record listener {
        filter_chains =
            chain_of "good.example" ("good" ∷ []) (manager_filter guarded_manager ∷ [])
            ∷ chain_of "bad.example" ("bad" ∷ []) (manager_filter guarded_manager ∷ [])
            ∷ [];
      }
      ∷ [];
}

mutate_run : mutate_snapshot codec config index request ≡ ok mutated_request
unfolding mutate_snapshot traverse insert lookup atoi inverted_paranoia_levels with_waf
    find_route_tpp extract_eg_resource inject_project_name_metadata tpp_info
    compute_coraza_directives build_coraza_configs_per_route apply_tpp_route_config get_list_value
    get_field get_struct_value get_string_value find_gateway_tpp replace_connector_clusters
    parse_connector_cluster_name show_int apply_connector_routes append_unique sanitize_id
    connector_match_domain inject_coraza_listener_filters visit_listener visit_chain visit_filter
    inject_local_reply_config
mutate_run = refl

prune_run : prune_snapshot codec x509 50 mutated_request ≡ response
unfolding prune_invalid_tls_secrets bad_secrets tls_certificate_usable chain_references_bad_secret
    chain_sds_secret_names append_unique chain_bad_secret_names kept_secrets
prune_run = refl

hook_run : post_translate_modify codec config cluster x509 50 request ≡ ok response
unfolding post_translate_modify
hook_run = rw (build_run, mutate_run, prune_run) refl

post_translate_modify-IsGuarded_example :
    All (λ l. All (IsGuarded codec config) (each_hcm codec l)) response.listeners
post_translate_modify-IsGuarded_example =
    post_translate_modify-IsGuarded codec config cluster x509 50 request response coraza-IsEnabled
      refl hook_run

post_translate_modify-AreTunnelled_example :
    (idx : PolicyIndex) × (build_policy_index_from_client cluster [] ≡ some idx)
    × AreTunnelled "tunnels" idx (plain ∷ []) (tunnel ∷ [])
post_translate_modify-AreTunnelled_example =
    post_translate_modify-AreTunnelled codec config cluster x509 50 request response hook_run
