-- ===== src/Extension/Hook/Run.antt =====
-- What a successful run of the hook is made of, and what becomes of the clusters
-- (internal/extensionserver/server/server.go).
use network_services_operato.Common.{ℕ, ◌≡◌, sym, subst, List, Option, none, some}
use network_services_operato.Common.Result.{Result, ok, err, >>=-eq-ok, traverse}
use network_services_operato.Extension.Xds.{Listener, RouteConfiguration}
use network_services_operato.Extension.Codec.{Codec, Error}
use network_services_operato.Extension.Index.{PolicyIndex}
use network_services_operato.Extension.Index.Objects
use network_services_operato.Extension.Index.Build.{build_policy_index_from_client}
use network_services_operato.Extension.Connector.Clusters.{Replacement, replace_connector_clusters}
use network_services_operato.Extension.Connector.ClustersSafe.{
  AreTunnelled, replace_connector_clusters-result,
}
use network_services_operato.Extension.Tls.Prune.{X509}
use network_services_operato.Extension.Hook.{
  ServerConfig, Snapshot, mutated, indexed, modify_listener, apply_tpp, apply_connectors,
  mutate_snapshot, prune_snapshot, post_translate_modify,
}

mutated-eq-ok : {A : Type 0} (r : Result Error A) (a : A) → mutated r ≡ ok a → r ≡ ok a
mutated-eq-ok (ok b) a e = cc
mutated-eq-ok (err x) a e = absurd (cc)

indexed-eq-ok : (o : Option PolicyIndex) (idx : PolicyIndex) → indexed o ≡ ok idx → o ≡ some idx
indexed-eq-ok none idx e = absurd (cc)
indexed-eq-ok (some i) idx e = cc

module _ (c : Codec) where
  open c use {Any}

  -- What makes up a successful run.
  pub post_translate_modify-eq-ok :
      (cfg : ServerConfig) (cl : Objects.Cluster) (x : X509) (now : ℕ) (req resp : Snapshot Any)
      → post_translate_modify c cfg cl x now req ≡ ok resp
      → (idx : PolicyIndex) × (s : Snapshot Any) × (build_policy_index_from_client cl
            cfg.coraza_route_base_directives
          ≡ some idx)
        × (mutate_snapshot c cfg idx req ≡ ok s)
        × (resp ≡ prune_snapshot c x now s)
  unfolding post_translate_modify
  post_translate_modify-eq-ok cfg cl x now req resp e =
      let (idx, ei, e1) =
        >>=-eq-ok (indexed (build_policy_index_from_client cl cfg.coraza_route_base_directives)) _
          e in
      let (s, es, e2) = >>=-eq-ok (mutated (mutate_snapshot c cfg idx req)) _ e1 in
      (idx, s, indexed-eq-ok _ idx ei, mutated-eq-ok _ s es, cc)

  pub mutate_snapshot-eq-ok :
      (cfg : ServerConfig) (idx : PolicyIndex) (req s : Snapshot Any)
      → mutate_snapshot c cfg idx req ≡ ok s
      → (ls : List (Listener Any)) × (governed : List (RouteConfiguration Any)) × (r : Replacement)
        × (routes : List (RouteConfiguration Any)) × (traverse (modify_listener c cfg) req.listeners
            ≡ ok ls)
        × (traverse (apply_tpp c idx cfg) req.routes ≡ ok governed)
        × (replace_connector_clusters c req.clusters idx cfg.connector_internal_listener ≡ ok r)
        × (traverse (apply_connectors c r.replaced r.offline) governed ≡ ok routes)
        × (s ≡ record {
          clusters = r.clusters;
          secrets = req.secrets;
          listeners = ls;
          routes = routes;
        })
  unfolding mutate_snapshot
  mutate_snapshot-eq-ok cfg idx req s e =
      let (ls, el, e1) = >>=-eq-ok (traverse (modify_listener c cfg) req.listeners) _ e in
      let (governed, eg, e2) = >>=-eq-ok (traverse (apply_tpp c idx cfg) req.routes) _ e1 in
      let (r, er, e3) =
        >>=-eq-ok (replace_connector_clusters c req.clusters idx cfg.connector_internal_listener) _
          e2 in
      let (routes, ert, e4) =
        >>=-eq-ok (traverse (apply_connectors c r.replaced r.offline) governed) _ e3 in
      (ls, governed, r, routes, el, eg, er, ert, cc)

  -- If the hook returns a response, its clusters are those of the request in the same order, judged by
  -- the index that the call built: the cluster of an online connector is a static tunnel of the same
  -- name that carries the connector's target and node, and every other cluster is unchanged.
  pub post_translate_modify-AreTunnelled :
      (cfg : ServerConfig) (cl : Objects.Cluster) (x : X509) (now : ℕ) (req resp : Snapshot Any)
      → post_translate_modify c cfg cl x now req ≡ ok resp
      → (idx : PolicyIndex) × (build_policy_index_from_client cl cfg.coraza_route_base_directives
          ≡ some idx)
        × AreTunnelled cfg.connector_internal_listener idx req.clusters resp.clusters
  post_translate_modify-AreTunnelled cfg cl x now req resp e =
      let (idx, s, ei, es, er) = post_translate_modify-eq-ok cfg cl x now req resp e in
      let (ls, governed, r, routes, _, _, rep, _, em) = mutate_snapshot-eq-ok cfg idx req s es in
      let result =
        replace_connector_clusters-result c req.clusters idx cfg.connector_internal_listener r
          rep in
      (
        idx,
        ei,
        subst (λ k. AreTunnelled cfg.connector_internal_listener idx req.clusters k.clusters)
            (sym er)
            (subst (λ k. AreTunnelled cfg.connector_internal_listener idx req.clusters k.clusters)
              (sym em) result.0),
      )
