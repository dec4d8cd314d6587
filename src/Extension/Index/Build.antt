-- ===== src/Extension/Index/Build.antt =====
-- How the index is built from the objects of the cluster
-- (internal/extensionserver/cache/index.go).
use network_services_operato.Common.{
  ℕ, suc, String, Bool, true, false, not, nat_beq, ltb, List, [], ◌∷◌, ◌++◌, Option, none, some,
  ◌==◌, string_eq, if◌then◌else◌,
}
use network_services_operato.Common.Int.{ℤ, pos}
use network_services_operato.Common.Go.{atoi, trim_prefix}
use network_services_operato.Common.Map.{lookup, insert}
use network_services_operato.Common.Text.{codes, bytes_leb}
use network_services_operato.Extension.Index.{
  TppInfo, ConnectorInfo, ConnectorKey, key_eq, PolicyIndex,
}
use network_services_operato.Extension.Index.Objects.{
  label, Namespace, Tpp, Backend, HttpProxy, Condition, ConnectionDetails, ConnectorStatus,
  Connector, Url, Cluster, text_or_empty,
}
use network_services_operato.Extension.Index.Directives.{compute_coraza_directives}

abbrev pub upstream_owner_namespace_label : String
upstream_owner_namespace_label = "meta.datumapis.com/upstream-namespace"

abbrev pub upstream_owner_cluster_name_label : String
upstream_owner_cluster_name_label = "meta.datumapis.com/upstream-cluster-name"

abbrev pub upstream_status_annotation : String
upstream_status_annotation = "networking.datumapis.com/upstream-status"

-- apimeta.IsStatusConditionTrue: the first condition of the type decides.
abbrev pub is_condition_true : String → List Condition → Bool
is_condition_true type [] = false
is_condition_true type (cond ∷ conds) =
    if cond.type == type then cond.status == "True" else is_condition_true type conds

abbrev pub public_key_id_of : Option ConnectionDetails → String
public_key_id_of none = ""
public_key_id_of (some details) =
    if details.type == "PublicKey" then text_or_empty details.public_key_id else ""

unfoldable pub connector_status_liveness : ConnectorStatus → Bool × String
connector_status_liveness status =
    if is_condition_true "Ready" status.conditions
    then (true, public_key_id_of status.connection_details)
    else (false, "")

unfoldable pub connector_liveness : (String → Option ConnectorStatus) → Connector → Bool × String
connector_liveness unmarshal connector =
    elim (lookup upstream_status_annotation connector.annotations) [
      | none ↦ connector_status_liveness connector.status
      | some raw ↦ elim (unmarshal raw) [
        | none ↦ connector_status_liveness connector.status
        | some status ↦ connector_status_liveness status
      ]
    ]

abbrev pub endpoint_port : Url → Option ℤ
endpoint_port u =
    if u.port == "" then some (if u.scheme == "https" then pos 443 else pos 80) else atoi u.port

-- `none` is an error.
unfoldable pub parse_endpoint : (String → Option Url) → String → Option (String × ℤ)
parse_endpoint parse_url endpoint = elim (parse_url endpoint) [
  | none ↦ none
  | some u ↦
      if u.hostname == ""
      then none
      else elim (endpoint_port u) [ none ↦ none | some p ↦ some (u.hostname, p) ]
]

-- The namespaces.
unfoldable pub add_namespace : Namespace → PolicyIndex → PolicyIndex
add_namespace ns idx =
    let upstream = label upstream_owner_namespace_label ns.labels in
    let cluster = label upstream_owner_cluster_name_label ns.labels in
    record idx {
      ds_to_us = insert ns.name (if upstream == "" then ns.name else upstream) idx.ds_to_us;
      project_names =
          if cluster == ""
          then idx.project_names
          else insert ns.name (trim_prefix cluster "cluster-") idx.project_names;
    }

unfoldable pub add_namespaces : List Namespace → PolicyIndex → PolicyIndex
unfolding add_namespace
add_namespaces [] idx = idx
add_namespaces (ns ∷ nss) idx = add_namespaces nss (add_namespace ns idx)

-- The less function of the sort: the older policy first, then by name.
unfoldable pub precedes : Tpp → Tpp → Bool
precedes s t =
    if nat_beq s.creation_timestamp t.creation_timestamp
    then not (bytes_leb (codes t.name) (codes s.name))
    else ltb s.creation_timestamp t.creation_timestamp

unfoldable pub insert_tpp : Tpp → List Tpp → List Tpp
unfolding precedes
insert_tpp t [] = t ∷ []
insert_tpp t (u ∷ us) = if precedes u t then u ∷ insert_tpp t us else t ∷ u ∷ us

-- sort.Slice; the order of two policies that are equal for the less function is not fixed by Go.
unfoldable pub sort_tpps : List Tpp → List Tpp
unfolding insert_tpp
sort_tpps [] = []
sort_tpps (t ∷ ts) = insert_tpp t (sort_tpps ts)

abbrev pub effective_ns : List (String × String) → String → String
effective_ns labels namespace =
    let upstream = label upstream_owner_namespace_label labels in
    if upstream == "" then namespace else upstream

unfoldable pub tpp_info : (String → String) → List String → Tpp → TppInfo
tpp_info quote base tpp = record {
  namespace = tpp.namespace;
  name = tpp.name;
  mode = tpp.mode;
  target_refs = tpp.target_refs;
  directives = compute_coraza_directives quote tpp base;
}

abbrev pub listed : Option (List TppInfo) → List TppInfo
listed none = []
listed (some infos) = infos

-- idx.TPPs[ns] = append(idx.TPPs[ns], info), for each policy.
unfoldable pub add_tpps :
    (String → String)
    → List String
    → List Tpp
    → List (String × List TppInfo)
    → List (String × List TppInfo)
unfolding tpp_info
add_tpps quote base [] m = m
add_tpps quote base (tpp ∷ tpps) m =
    let ns = effective_ns tpp.labels tpp.namespace in
    add_tpps quote base tpps (insert ns (listed (lookup ns m) ++ (tpp_info quote base tpp ∷ [])) m)

abbrev pub empty_index : PolicyIndex
empty_index = record { ds_to_us = []; project_names = []; tpps = []; connectors = [] }

module _ (cl : Cluster) where
  abbrev Connectors : Type 0
  Connectors = List (ConnectorKey × ConnectorInfo)

  abbrev pub info_of : Option Connector → String → ℤ → ConnectorInfo
  info_of none host port = record {
    online = false;
    target_host = host;
    target_port = port;
    node_id = "";
  }
  info_of (some connector) host port =
      let liveness = connector_liveness cl.unmarshal_status connector in
      record { online = liveness.0; target_host = host; target_port = port; node_id = liveness.1 }

  abbrev pub add_target : HttpProxy → ℕ → String → Option (String × ℤ) → Connectors → Connectors
  add_target proxy i name none m = m
  add_target proxy i name (some (host, port)) m =
      insert
        (record {
          upstream_ns = effective_ns proxy.labels proxy.namespace;
          http_proxy_name = proxy.name;
          rule_index = pos i;
        })
        (info_of (cl.get_connector proxy.namespace name) host port) m

  abbrev pub add_backend : HttpProxy → ℕ → Backend → Connectors → Connectors
  add_backend proxy i backend m = elim backend.connector [
    | none ↦ m
    | some name ↦ add_target proxy i name (parse_endpoint cl.parse_url backend.endpoint) m
  ]

  unfoldable pub add_backends : HttpProxy → ℕ → List Backend → Connectors → Connectors
  add_backends proxy i [] m = m
  add_backends proxy i (b ∷ bs) m = add_backends proxy i bs (add_backend proxy i b m)

  unfoldable pub add_rules : HttpProxy → ℕ → List (List Backend) → Connectors → Connectors
  add_rules proxy i [] m = m
  add_rules proxy i (rule ∷ rules) m = add_rules proxy (suc i) rules (add_backends proxy i rule m)

  unfoldable pub add_proxies : List HttpProxy → Connectors → Connectors
  unfolding add_rules add_backends
  add_proxies [] m = m
  add_proxies (proxy ∷ proxies) m = add_proxies proxies (add_rules proxy 0 proxy.rules m)

  -- The three lists in order; `none` is an error.
  unfoldable pub populate_from_client : PolicyIndex → List String → Option PolicyIndex
  unfolding add_namespaces add_tpps sort_tpps add_proxies
  populate_from_client idx base = elim cl.namespaces [
    | none ↦ none
    | some nss ↦ elim cl.tpps [
      | none ↦ none
      | some ts ↦ elim cl.proxies [
        | none ↦ none
        | some ps ↦ some (record (add_namespaces nss idx) {
          tpps = add_tpps cl.quote base (sort_tpps ts) (add_namespaces nss idx).tpps;
          connectors = add_proxies ps (add_namespaces nss idx).connectors;
        })
      ]
    ]
  ]

  unfoldable pub build_policy_index_from_client : List String → Option PolicyIndex
  unfolding populate_from_client
  build_policy_index_from_client base = populate_from_client empty_index base
