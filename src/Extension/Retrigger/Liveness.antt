-- ===== src/Extension/Retrigger/Liveness.antt =====
-- The reconciler that makes Envoy Gateway translate the gateways of a connector again when its
-- liveness changes (internal/extensionserver/retrigger/retrigger.go). The API server is a parameter:
-- the connector, the proxies of the namespace, and the error of each patch, if any. The state is the
-- annotations of the gateways of the namespace, by name; a patch of a gateway that is not there is
-- ignored. Logging is left out.
use Prim.Native.String.{◌++◌}
use network_services_operato.Common.{
  String, Bool, false, not, ◌||◌, ◌==◌, string_eq, if◌then◌else◌, List, [], ◌∷◌, any, Option, none,
  some,
}
use network_services_operato.Common.Map.{lookup, insert}
use network_services_operato.Common.Result.{Result, ok, err}
use network_services_operato.Extension.Index.Objects.{
  Labels, Backend, HttpProxy, Connector, ConnectorStatus,
}
use network_services_operato.Extension.Index.Build.{connector_liveness}

abbrev pub connector_ready_annotation_key : String
connector_ready_annotation_key = "networking.datumapis.com/connector-ready-generation"

abbrev pub Gateways : Type 0
Gateways = List (String × Labels)

-- "%t/%s"
unfoldable pub liveness_value : Bool × String → String
liveness_value (online, node_id) = (if online then "true" else "false") ++ ("/" ++ node_id)

unfoldable pub liveness_changed :
    (String → Option ConnectorStatus) → (old_connector new_connector : Connector) → Bool
unfolding connector_liveness
liveness_changed unmarshal old_connector new_connector =
    let (was_online, old_node) = connector_liveness unmarshal old_connector in
    let (is_online, new_node) = connector_liveness unmarshal new_connector in
    (if was_online then not is_online else is_online) || not (old_node == new_node)

abbrev pub names_connector : String → Backend → Bool
names_connector connector_name backend = elim backend.connector [
  | none ↦ false
  | some name ↦ name == connector_name
]

unfoldable pub http_proxy_references_connector : HttpProxy → String → Bool
http_proxy_references_connector proxy connector_name =
    any (λ backends. any (names_connector connector_name) backends) proxy.rules

-- The merge patch of the annotation, which keeps the others.
abbrev pub patched : String → Option Labels → String → Gateways → Gateways
patched value none name gateways = gateways
patched value (some annotations) name gateways =
    insert name (insert connector_ready_annotation_key value annotations) gateways

unfoldable pub touch_gateway :
    (patch_error : String → Option String) → String → String → Gateways → Gateways × Option String
touch_gateway patch_error value name gateways = elim (patch_error name) [
  | none ↦ (patched value (lookup name gateways) name gateways, none)
  | some why ↦ (gateways, some why)
]

-- firstErr
abbrev pub first_error : Option String → Option String → Option String
first_error (some why) later = some why
first_error none later = later

-- The loop over the proxies; a failure does not stop it.
unfoldable pub touch_gateways :
    (patch_error : String → Option String)
    → (connector_name value : String) → List HttpProxy
    → Gateways
    → Gateways × Option String
unfolding touch_gateway http_proxy_references_connector
touch_gateways patch_error connector_name value [] gateways = (gateways, none)
touch_gateways patch_error connector_name value (proxy ∷ proxies) gateways =
    let touch = http_proxy_references_connector proxy connector_name in
    let step = touch_gateway patch_error value proxy.name gateways in
    let reached = if touch then step.0 else gateways in
    let rest = touch_gateways patch_error connector_name value proxies reached in
    if touch then (rest.0, first_error step.1 rest.1) else rest

-- What the API server says of the connector.
pub data GotConnector : Type 0 where
  get_error : String → GotConnector
  missing : GotConnector
  present : Connector → GotConnector

pub record Api : Type 0 where
  pub get_connector : GotConnector
  pub list_proxies : Result String (List HttpProxy)
  pub patch_error : String → Option String
  pub unmarshal_status : String → Option ConnectorStatus

-- The request is the connector's namespace and name.
unfoldable pub retrigger : Api → (namespace name : String) → Gateways → Gateways × Option String
unfolding touch_gateways liveness_value connector_liveness
retrigger api namespace name gateways = elim api.get_connector [
  | get_error why ↦ (gateways, some why)
  | missing ↦ (gateways, none)
  | present connector ↦ elim api.list_proxies [
    | err why ↦ (gateways, some ("list HTTPProxies in " ++ (namespace ++ (": " ++ why))))
    | ok proxies ↦
        touch_gateways api.patch_error name
          (liveness_value (connector_liveness api.unmarshal_status connector)) proxies gateways
  ]
]
