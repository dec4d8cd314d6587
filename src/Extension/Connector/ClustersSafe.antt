-- ===== src/Extension/Connector/ClustersSafe.antt =====
-- Which clusters become tunnels, and what the two maps hold
-- (internal/extensionserver/mutate/connector.go).
use network_services_operato.Common.{
  String, Bool, true, false, ◌≡◌, refl, subst, List, [], ◌∷◌, Option, none, some, ◌==◌, string_eq,
  str_eq_iff, Paired, All, arith, Bool-cases, Option-cases, inl, inr, ◌⊎◌,
}
use network_services_operato.Common.Map.{insert}
use network_services_operato.Common.Result.{Result, ok, ◌>>=◌, >>=-eq-ok}
use network_services_operato.Common.Go.{◌+s◌, show_int}
use network_services_operato.Extension.Xds.{Cluster, LoadAssignment, internal}
use network_services_operato.Extension.Codec.{Codec, Error}
use network_services_operato.Extension.Index.{ConnectorInfo, PolicyIndex}
use network_services_operato.Extension.Connector.Clusters.{
  connector_of, Connectors, Replacement, keep, build_connector_cluster, replace_from,
  replace_connector_clusters,
}
use network_services_operato.Extension.Programmed.Scan.{
  connector_internal_transport, is_replaced_connector_cluster,
}

-- Every entry of a map is a connector of the index, in the given state.
abbrev pub IsMapOf : PolicyIndex → Bool → Connectors → Type 0
IsMapOf idx state =
    All (λ (e : String × ConnectorInfo). (connector_of idx e.0 ≡ some e.1) × (e.1.online ≡ state))

IsMapOf-insert :
    (idx : PolicyIndex) (state : Bool) (k : String) (v : ConnectorInfo) (m : Connectors)
    → connector_of idx k ≡ some v
    → v.online ≡ state
    → IsMapOf idx state m
    → IsMapOf idx state (insert k v m)
unfolding insert
IsMapOf-insert idx state k v [] is on h = ((is, on), tt)
IsMapOf-insert idx state k v ((j, w) ∷ m) is on (first, rest) = elim (Bool-cases (j == k)) [
  | inl same ↦ rw same ((is, on), rest)
  | inr other ↦ rw other (first, IsMapOf-insert idx state k v m is on rest)
]

-- The endpoint of a tunnel to a connector: its target as the address, its node as the id.
abbrev pub tunnel_to : String → String → ConnectorInfo → LoadAssignment
tunnel_to name listener info =
    internal name listener (info.target_host +s ":" +s show_int info.target_port) info.node_id

-- A cluster of an online connector is a tunnel under the same name; any other is as it was.
abbrev pub IsTunnelled : String → Option ConnectorInfo → Cluster → Cluster → Type 0
IsTunnelled listener none cl cl' = cl' ≡ cl
IsTunnelled listener (some info) cl cl' =
    ((info.online ≡ false) × (cl' ≡ cl))
    ⊎ ((info.online ≡ true)
        × (cl'.name ≡ cl.name)
        × (is_replaced_connector_cluster cl' ≡ true)
        × (cl'.load_assignment ≡ tunnel_to cl.name listener info))

abbrev pub AreTunnelled : String → PolicyIndex → List Cluster → List Cluster → Type 0
AreTunnelled listener idx =
    Paired (λ cl cl'. IsTunnelled listener (connector_of idx cl.name) cl cl')

abbrev pub IsReplacement : String → PolicyIndex → List Cluster → Replacement → Type 0
IsReplacement listener idx cls r =
    AreTunnelled listener idx cls r.clusters
    × IsMapOf idx true r.replaced
    × IsMapOf idx false r.offline

keep-IsReplacement :
    (listener : String) (idx : PolicyIndex) (cl cl' : Cluster) (cls : List Cluster)
    (m : Result Error Replacement) (r : Replacement)
    → m >>= keep cl' ≡ ok r
    → IsTunnelled listener (connector_of idx cl.name) cl cl'
    → ((q : Replacement) → m ≡ ok q → IsReplacement listener idx cls q)
    → IsReplacement listener idx (cl ∷ cls) r
keep-IsReplacement listener idx cl cl' cls m r e t ih =
    let (q, eq, er) = >>=-eq-ok m (keep cl') e in
    let (clusters, on, off) = ih q eq in
    let s : record q { clusters = cl' ∷ q.clusters } ≡ r = cc in
    subst (IsReplacement listener idx (cl ∷ cls)) s ((t, clusters), on, off)

module _ (c : Codec) where
  build_connector_cluster-result :
      (name listener : String) (info : ConnectorInfo) (nc : Cluster)
      → build_connector_cluster c name info listener ≡ some nc
      → (nc.name ≡ name)
        × (is_replaced_connector_cluster nc ≡ true)
        × (nc.load_assignment ≡ tunnel_to name listener info)
  unfolding build_connector_cluster is_replaced_connector_cluster
  build_connector_cluster-result name listener info nc e =
      ground (arith, str_eq_iff nc.transport_socket connector_internal_transport)

  replace_from-IsReplacement :
      (idx : PolicyIndex) (listener : String) (cls : List Cluster) (on off : Connectors)
      (r : Replacement)
      → IsMapOf idx true on
      → IsMapOf idx false off
      → replace_from c idx listener cls on off ≡ ok r
      → IsReplacement listener idx cls r
  unfolding replace_from
  replace_from-IsReplacement idx listener [] on off r h k e =
      let s : record { clusters = []; replaced = on; offline = off } ≡ r = cc in
      subst (IsReplacement listener idx []) s (tt, h, k)
  replace_from-IsReplacement idx listener (cl ∷ cls) on off r h k e =
      elim (Option-cases (connector_of idx cl.name)) [
        | inl unknown ↦
            keep-IsReplacement listener idx cl cl cls (replace_from c idx listener cls on off) r
              (ground arith) (rw unknown)
              (λ q. replace_from-IsReplacement idx listener cls on off q h k)
        | inr (info, known) ↦ elim (Bool-cases info.online) [
          | inr is_off ↦
              keep-IsReplacement listener idx cl cl cls
                (replace_from c idx listener cls on (insert cl.name info off)) r (ground arith)
                (rw known (inl (is_off, refl)))
                (λ q.
                  replace_from-IsReplacement idx listener cls on (insert cl.name info off) q h
                    (IsMapOf-insert idx false cl.name info off known is_off k))
          | inl is_on ↦ elim (Option-cases (build_connector_cluster c cl.name info listener)) [
            | inl failed ↦ absurd (ground arith)
            | inr (nc, built) ↦
                keep-IsReplacement listener idx cl nc cls
                  (replace_from c idx listener cls (insert cl.name info on) off) r (ground arith)
                  (rw known (
                    inr (
                      let (named, static, target) =
                        build_connector_cluster-result cl.name listener info nc built in
                      (is_on, named, static, target))))
                  (λ q.
                    replace_from-IsReplacement idx listener cls (insert cl.name info on) off q
                      (IsMapOf-insert idx true cl.name info on known is_on h) k)
          ]
        ]
      ]

  -- If the pass over the clusters succeeds, the clusters are the same ones in the same order, and
  -- exactly those that belong to an online connector of the index have become tunnels, under their
  -- old names and to the connector's target and node. Each entry of the map of the replaced ones is a connector of the index that is online,
  -- and each entry of the other map one that is not.
  pub replace_connector_clusters-result :
      (cls : List Cluster) (idx : PolicyIndex) (listener : String) (r : Replacement)
      → replace_connector_clusters c cls idx listener ≡ ok r
      → IsReplacement listener idx cls r
  unfolding replace_connector_clusters
  replace_connector_clusters-result cls idx listener r e =
      replace_from-IsReplacement idx listener cls [] [] r tt tt e
