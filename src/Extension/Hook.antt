-- ===== src/Extension/Hook.antt =====
-- PostTranslateModify, the hook that Envoy Gateway calls with a whole snapshot
-- (internal/extensionserver/server/server.go). Logs, spans and metrics are left out.
pub mod Run
pub mod Protected
use network_services_operato.Common.{ℕ, String, List, [], ◌∷◌, map, Option, none, some}
use network_services_operato.Common.Result.{Result, ok, err, ◌>>=◌, traverse}
use network_services_operato.Extension.Xds.{Listener, RouteConfiguration, Cluster}
use network_services_operato.Extension.Codec.{Codec, Error}
use network_services_operato.Extension.Index.{PolicyIndex}
use network_services_operato.Extension.Index.Objects
use network_services_operato.Extension.Index.Build.{build_policy_index_from_client}
use network_services_operato.Extension.Waf.Listener.{CorazaConfig, inject_coraza_listener_filters}
use network_services_operato.Extension.Waf.Routes.{apply_tpp_route_config}
use network_services_operato.Extension.LocalReply.Inject.{ErrorPage, inject_local_reply_config}
use network_services_operato.Extension.Connector.Clusters.{
  Connectors, Replacement, replace_connector_clusters,
}
use network_services_operato.Extension.Connector.Routes.{apply_connector_routes}
use network_services_operato.Extension.Tls.Prune.{Secret, X509, prune_invalid_tls_secrets}

pub record ServerConfig : Type 0 where
  pub coraza : CorazaConfig
  pub connector_internal_listener : String
  pub coraza_route_base_directives : List String
  pub local_reply : ErrorPage

-- The lists of a request, and those of a response.
pub record Snapshot (Any : Type 0) : Type 0 where
  pub clusters : List Cluster
  pub secrets : List Secret
  pub listeners : List (Listener Any)
  pub routes : List (RouteConfiguration Any)

pub data HookError : Type 0 where
  build_index : HookError
  mutate : Error → HookError

abbrev pub mutated {ℓ} : {A : Type ℓ} → Result Error A → Result HookError A
mutated (ok a) = ok a
mutated (err e) = err (mutate e)

abbrev pub indexed : Option PolicyIndex → Result HookError PolicyIndex
indexed none = err build_index
indexed (some idx) = ok idx

module _ (c : Codec) where
  open c use {Any}

  -- The body of the loop over the listeners.
  unfoldable pub modify_listener : ServerConfig → Listener Any → Result Error (Listener Any)
  modify_listener cfg l = do
    p ← inject_coraza_listener_filters c cfg.coraza l
    q ← inject_local_reply_config c cfg.local_reply p.0
    ok q.0

  abbrev pub apply_tpp :
      PolicyIndex → ServerConfig → RouteConfiguration Any → Result Error (RouteConfiguration Any)
  apply_tpp idx cfg rc = do p ← apply_tpp_route_config c idx cfg.coraza rc; ok p.0

  abbrev pub apply_connectors :
      Connectors → Connectors → RouteConfiguration Any → Result Error (RouteConfiguration Any)
  apply_connectors replaced offline rc = do
    o ← apply_connector_routes c replaced offline rc
    ok o.value

  -- The response, before broken certificates are pruned.
  unfoldable pub mutate_snapshot :
      ServerConfig → PolicyIndex → Snapshot Any → Result Error (Snapshot Any)
  unfolding modify_listener
  mutate_snapshot cfg idx req = do
    listeners ← traverse (modify_listener cfg) req.listeners
    governed ← traverse (apply_tpp idx cfg) req.routes
    r ← replace_connector_clusters c req.clusters idx cfg.connector_internal_listener
    routes ← traverse (apply_connectors r.replaced r.offline) governed
    ok (record {
      clusters = r.clusters;
      secrets = req.secrets;
      listeners = listeners;
      routes = routes;
    })

  abbrev pub prune_snapshot : X509 → ℕ → Snapshot Any → Snapshot Any
  prune_snapshot x now s =
      let p = prune_invalid_tls_secrets c x s.listeners s.secrets now in
      record s { listeners = p.listeners; secrets = p.kept }

  unfoldable pub post_translate_modify :
      ServerConfig → Objects.Cluster → X509 → ℕ → Snapshot Any → Result HookError (Snapshot Any)
  unfolding mutate_snapshot
  post_translate_modify cfg cl x now req = do
    idx ← indexed (build_policy_index_from_client cl cfg.coraza_route_base_directives)
    s ← mutated (mutate_snapshot cfg idx req)
    ok (prune_snapshot x now s)
