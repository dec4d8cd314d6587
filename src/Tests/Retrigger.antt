-- ===== src/Tests/Retrigger.antt =====
-- Runs of the reconcilers of policies and of connectors (internal/extensionserver/retrigger).
use network_services_operato.Common.{
  ◌↔◌, ◌≢◌, Distinct, String, Bool, true, false, not, any, ◌&&◌, ◌≡◌, refl, List, [], ◌∷◌, ◌==◌,
  string_eq, if◌then◌else◌, none, some,
}
use network_services_operato.Common.Member.{has}
use network_services_operato.Common.Map.{lookup, insert}
use network_services_operato.Common.Result.{ok}
use network_services_operato.Extension.Index.Objects.{HttpProxy, Connector}
use network_services_operato.Extension.Index.Build.{connector_liveness}
use network_services_operato.Extension.Retrigger.Liveness.{
  liveness_changed, Gateways, connector_ready_annotation_key, liveness_value, present, Api,
  retrigger,
}
use network_services_operato.Extension.Retrigger.Stamped.{
  liveness_changed_iff, reading, stamp, is_touched, fails_to_touch, succeeds, retrigger-result,
}
use network_services_operato.Extension.Retrigger.{
  LastTargets, reconcile_live, reconcile_deleted, targets_of,
}
use network_services_operato.Extension.Retrigger.Targets.{
  is_named, reconcile_live-result, reconcile_deleted-forgets,
}

abbrev none_fails : String → Bool
none_fails name = false

abbrev gw_fails : String → Bool
gw_fails name = name == "gw"

abbrev remembered : LastTargets
remembered = ("ns/p", "gw" ∷ "old" ∷ []) ∷ []

live_run :
    (reconcile_live none_fails none_fails "ns/p" ("gw" ∷ "new" ∷ "gw" ∷ []) remembered).cleared
    ≡ "old" ∷ []
unfolding reconcile_live lookup
live_run = refl

live_succeeds :
    (reconcile_live none_fails none_fails "ns/p" ("gw" ∷ "new" ∷ "gw" ∷ []) remembered).failed
    ≡ false
unfolding reconcile_live lookup
live_succeeds = refl

reconcile_live-result_example :
    let r = reconcile_live none_fails none_fails "ns/p" ("gw" ∷ "new" ∷ "gw" ∷ []) remembered in
    Distinct r.touched
    × ((k : String) → has r.touched k ≡ is_named ("gw" ∷ "new" ∷ "gw" ∷ []) k)
    × ((k : String)
        → has r.cleared k
          ≡ has ("gw" ∷ "old" ∷ []) k && not (is_named ("gw" ∷ "new" ∷ "gw" ∷ []) k))
    × (targets_of (lookup "ns/p" r.last_targets) ≡ r.touched)
    × ((other : String)
        → "ns/p" == other ≡ false
        → lookup other r.last_targets ≡ lookup other remembered)
unfolding lookup
reconcile_live-result_example =
    reconcile_live-result none_fails none_fails "ns/p" ("gw" ∷ "new" ∷ "gw" ∷ []) remembered
      live_succeeds

-- The first run cannot clear "gw" and says so.
deleted_fails : (reconcile_deleted gw_fails "ns/p" remembered).failed ≡ true
unfolding reconcile_deleted lookup
deleted_fails = refl

reconcile_deleted-forgets_example :
    (reconcile_deleted none_fails "ns/p"
      (reconcile_deleted gw_fails "ns/p" remembered).last_targets).cleared
    ≡ []
reconcile_deleted-forgets_example = reconcile_deleted-forgets gw_fails none_fails "ns/p" remembered

abbrev ready_connector : Connector
ready_connector = record {
  annotations = [];
  status = record {
    conditions = record { type = "Ready"; status = "True" } ∷ [];
    connection_details = some (record { type = "PublicKey"; public_key_id = some "node" });
  };
}

abbrev proxy_named : String → String → HttpProxy
proxy_named name connector_name = record {
  namespace = "ns";
  name = name;
  labels = [];
  rules = (record { endpoint = "http://a"; connector = some connector_name } ∷ []) ∷ [];
}

abbrev proxies : List HttpProxy
proxies =
    proxy_named "p" "c" ∷ proxy_named "q" "other" ∷ proxy_named "r" "c" ∷ proxy_named "s" "c" ∷ []

abbrev gateways : Gateways
gateways = ("p", ("a", "b") ∷ []) ∷ ("q", []) ∷ ("r", []) ∷ []

-- The patch of "r" fails; there is no gateway "s".
abbrev sample_api : Api
sample_api = record {
  get_connector = present ready_connector;
  list_proxies = ok proxies;
  patch_error = λ name. if name == "r" then some "timeout" else none;
  unmarshal_status = λ text. none;
}

stamps_run : retrigger sample_api "ns" "c" gateways ≡ (
  ("p", ("a", "b") ∷ (connector_ready_annotation_key, "true/node") ∷ [])
      ∷ ("q", [])
      ∷ ("r", [])
      ∷ [],
  some "timeout",
)
unfolding retrigger lookup insert
    network_services_operato.Extension.Index.Build.connector_status_liveness
stamps_run = refl

retrigger-result_example :
    let r = retrigger sample_api "ns" "c" gateways in
    ((key gateway : String)
      → reading key gateway r.0
        ≡ stamp
            ((connector_ready_annotation_key == key)
              && any (is_touched sample_api.patch_error "c" gateway) proxies)
            (liveness_value (connector_liveness sample_api.unmarshal_status ready_connector))
            (reading key gateway gateways))
    × (succeeds r.1 ≡ not (any (fails_to_touch sample_api.patch_error "c") proxies))
retrigger-result_example =
    retrigger-result sample_api ready_connector proxies "ns" "c" gateways refl refl

abbrev moved_connector : Connector
moved_connector = record ready_connector {
  status = record ready_connector.status {
    connection_details = some (record { type = "PublicKey"; public_key_id = some "node2" });
  };
}

liveness_changed_iff_example :
    (liveness_changed (λ text. none) ready_connector moved_connector ≡ true) ↔ (
      liveness_value (connector_liveness (λ text. none) ready_connector)
      ≢ liveness_value (connector_liveness (λ text. none) moved_connector))
liveness_changed_iff_example = liveness_changed_iff (λ text. none) ready_connector moved_connector
