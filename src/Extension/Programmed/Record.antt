-- ===== src/Extension/Programmed/Record.antt =====
-- The record that the test endpoint serves (internal/extensionserver/server/programmedset.go): the
-- identities of what a build changed, by family. The time of capture and the lock are left out.
use network_services_operato.Common.{
  ℕ, ◌+◌, ◌%◌, ◌^◌, String, Bool, true, false, List, [], ◌∷◌, ◌++◌, map, length, Option, none, some,
  not, ◌&&◌, ◌==◌, string_eq, if◌then◌else◌,
}
use network_services_operato.Common.Map.{lookup, insert}
use network_services_operato.Extension.Codec.{Codec}
use network_services_operato.Extension.Hcm.Each.{each_hcm}
use network_services_operato.Extension.Xds.{
  Cluster, Hcm, Listener, Route, RouteConfiguration, VirtualHost, LocalReplyConfig,
}
use network_services_operato.Extension.Programmed.Scan.{
  TppMark, waf_route_key, connector_route_key, listener_chain_key, datum_gateway_tpp,
  is_connect_route, is_offline_direct_response, hcm_has_filter_at_zero,
  is_replaced_connector_cluster, sort_dedup,
}

abbrev pub Keys : Type 0
Keys = List (String × List String)

abbrev pub Counts : Type 0
Counts = List (String × ℕ)

pub record TlsCounts : Type 0 where
  pub pruned_chains : ℕ
  pub pruned_secrets : ℕ
  pub listeners_left_intact : ℕ

pub record ProgrammedSet : Type 0 where
  pub build_id : ℕ
  pub keys : Keys
  pub counts : Counts
  pub tls : TlsCounts

pub record ProgrammedRecorder : Type 0 where
  pub build_id : ℕ
  pub last : Option ProgrammedSet

abbrev pub new_programmed_recorder : ProgrammedRecorder
new_programmed_recorder = record { build_id = 0; last = none }

unfoldable pub snapshot : ProgrammedRecorder → ProgrammedSet
snapshot r = elim r.last [
  | none ↦ record {
    build_id = 0;
    keys = [];
    counts = [];
    tls = record { pruned_chains = 0; pruned_secrets = 0; listeners_left_intact = 0 };
  }
  | some last ↦ last
]

-- keys[f], with nil for a missing key.
abbrev pub keys_of : Option (List String) → List String
keys_of none = []
keys_of (some ks) = ks

unfoldable pub add : (family key : String) → Keys → Keys
unfolding lookup insert
add family key keys = insert family (keys_of (lookup family keys) ++ key ∷ []) keys

abbrev pub add_if : Bool → (family key : String) → Keys → Keys
add_if b family key keys = if b then add family key keys else keys

abbrev pub add_mark : (rc vh rt : String) → Option TppMark → Keys → Keys
add_mark rc vh rt none keys = keys
add_mark rc vh rt (some tpp) keys =
    add "waf_route" (waf_route_key rc vh rt tpp.namespace tpp.name tpp.mode) keys

abbrev pub is_given : Option LocalReplyConfig → Bool
is_given none = false
is_given (some config) = true

module _ {Any : Type 0} where
  unfoldable pub add_route : (rc vh : String) → Route Any → Keys → Keys
  unfolding add
  add_route rc vh rt keys =
      let marked = add_mark rc vh rt.name (datum_gateway_tpp rt) keys in
      let key = connector_route_key rc vh rt.name in
      let connected = add_if (is_connect_route rt) "connector_route" key marked in
      add_if (is_offline_direct_response rt) "connector_offline" key connected

  unfoldable pub add_routes : (rc vh : String) → List (Route Any) → Keys → Keys
  unfolding add_route
  add_routes rc vh [] keys = keys
  add_routes rc vh (rt ∷ rts) keys = add_routes rc vh rts (add_route rc vh rt keys)

  unfoldable pub add_virtual_hosts : (rc : String) → List (VirtualHost Any) → Keys → Keys
  unfolding add_routes
  add_virtual_hosts rc [] keys = keys
  add_virtual_hosts rc (vh ∷ vhs) keys =
      add_virtual_hosts rc vhs (add_routes rc vh.name vh.routes keys)

  unfoldable pub add_route_configurations : List (RouteConfiguration Any) → Keys → Keys
  unfolding add_virtual_hosts
  add_route_configurations [] keys = keys
  add_route_configurations (rc ∷ rcs) keys =
      add_route_configurations rcs (add_virtual_hosts rc.name rc.virtual_hosts keys)

  unfoldable pub add_hcms : (coraza listener : String) → List (String × Hcm Any) → Keys → Keys
  unfolding add
  add_hcms coraza listener [] keys = keys
  add_hcms coraza listener ((chain, hcm) ∷ hcms) keys =
      let key = listener_chain_key listener chain in
      let has_waf = not (coraza == "") && hcm_has_filter_at_zero hcm coraza in
      let with_waf = add_if has_waf "waf_hcm" key keys in
      add_hcms coraza listener hcms
        (add_if (is_given hcm.local_reply_config) "local_reply" key with_waf)

unfoldable pub add_clusters : List Cluster → Keys → Keys
unfolding add
add_clusters [] keys = keys
add_clusters (cl ∷ cls) keys =
    add_clusters cls (add_if (is_replaced_connector_cluster cl) "connector_cluster" cl.name keys)

abbrev pub sorted_keys : Keys → Keys
sorted_keys keys = map (λ entry. (entry.0, sort_dedup entry.1)) keys

abbrev pub counts_of : Keys → Counts
counts_of keys = map (λ entry. (entry.0, length entry.1)) keys

module _ (c : Codec) where
  open c use {Any}

  unfoldable pub add_listeners : String → List (Listener Any) → Keys → Keys
  unfolding add_hcms
  add_listeners coraza [] keys = keys
  add_listeners coraza (l ∷ ls) keys =
      add_listeners coraza ls (add_hcms coraza l.name (each_hcm c l) keys)

  unfoldable pub build_programmed_set :
      List (Listener Any)
      → List (RouteConfiguration Any)
      → List Cluster
      → String
      → TlsCounts
      → ProgrammedSet
  unfolding add_listeners add_route_configurations add_clusters
  build_programmed_set listeners routes clusters coraza tls =
      let found =
        add_listeners coraza listeners
          (add_clusters clusters (add_route_configurations routes [])) in
      let keys = sorted_keys found in
      record {
        build_id = 0;
        keys = keys;
        counts = insert "tls_prune" tls.pruned_chains (counts_of keys);
        tls = tls;
      }

  unfoldable pub record_set :
      List (Listener Any)
      → List (RouteConfiguration Any)
      → List Cluster
      → String
      → TlsCounts
      → ProgrammedRecorder
      → ProgrammedRecorder
  unfolding build_programmed_set
  record_set listeners routes clusters coraza tls r =
      let ps = build_programmed_set listeners routes clusters coraza tls in
      let id = (r.build_id + 1) % 2 ^ 64 in
      record { build_id = id; last = some (record ps { build_id = id }) }
