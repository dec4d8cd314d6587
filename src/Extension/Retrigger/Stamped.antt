-- ===== src/Extension/Retrigger/Stamped.antt =====
-- The gateways after the reconciler of connectors, and the updates that reach it
-- (internal/extensionserver/retrigger/retrigger.go).
use Prim.Native.Char.{code}
use Prim.Native.String.{◌++◌}
use text.Mathlib.TextLemmas.{append_cancel_left, cons-append, head-eq_of_cons-eq}
use network_services_operato.Common.{
  String, Bool, true, false, not, ◌&&◌, ◌||◌, ◌==◌, string_eq, if◌then◌else◌, List, [], ◌∷◌, any,
  Option, none, some, ◌≡◌, refl, sym, ◌∙◌, ◌↔◌, ◌≢◌, ap, arith, str_eq_iff, Bool-cases,
  Option-cases, inl, inr,
}
use network_services_operato.Common.Map.{lookup, insert, lookup-insert}
use network_services_operato.Common.Result.{ok}
use network_services_operato.Extension.Index.Objects.{HttpProxy, Connector, ConnectorStatus}
use network_services_operato.Extension.Index.Build.{connector_liveness}
use network_services_operato.Extension.Retrigger.Liveness.{
  connector_ready_annotation_key, Gateways, liveness_value, liveness_changed,
  http_proxy_references_connector, touch_gateway, touch_gateways, patched, present, Api, retrigger,
}

differ : (s t : String) → "true" ++ s ≢ "false" ++ t
differ s t h =
    let heads =
      head-eq_of_cons-eq (sym (cons-append "t" "rue" s) ∙ (h ∙ cons-append "f" "alse" t)) in
    let codes : code "t" ≡ code "f" = ap code heads in omega arith

same_value :
    (a b : Bool × String) → (liveness_value a ≡ liveness_value b) ↔ ((a.0 ≡ b.0) × (a.1 ≡ b.1))
unfolding liveness_value
same_value (true, s) (true, t) = (
  λ h. (refl, append_cancel_left "/" s t (append_cancel_left "true" ("/" ++ s) ("/" ++ t) h)),
  λ e. ap (λ v. "true" ++ ("/" ++ v)) e.1,
)
same_value (false, s) (false, t) = (
  λ h. (refl, append_cancel_left "/" s t (append_cancel_left "false" ("/" ++ s) ("/" ++ t) h)),
  λ e. ap (λ v. "false" ++ ("/" ++ v)) e.1,
)
same_value (true, s) (false, t) = (λ h. absurd (differ ("/" ++ s) ("/" ++ t) h), λ e. absurd (cc))
same_value (false, s) (true, t) =
    (λ h. absurd (differ ("/" ++ t) ("/" ++ s) (sym h)), λ e. absurd (cc))

-- An update of a connector is admitted exactly if it changes the value that is stamped.
pub liveness_changed_iff :
    (unmarshal : String → Option ConnectorStatus) (old_connector new_connector : Connector)
    → (liveness_changed unmarshal old_connector new_connector ≡ true) ↔ (
        liveness_value (connector_liveness unmarshal old_connector)
        ≢ liveness_value (connector_liveness unmarshal new_connector))
unfolding liveness_changed
liveness_changed_iff unmarshal old_connector new_connector =
    let a = connector_liveness unmarshal old_connector in
    let b = connector_liveness unmarshal new_connector in
    ground (arith, same_value a b, str_eq_iff a.1 b.1)

-- An annotation of a gateway: `none` if there is no such gateway.
abbrev pub reading : (key gateway : String) → Gateways → Option (Option String)
reading key gateway gateways = elim (lookup gateway gateways) [
  | none ↦ none
  | some annotations ↦ some (lookup key annotations)
]

abbrev pub stamp : Bool → String → Option (Option String) → Option (Option String)
stamp hit value none = none
stamp hit value (some old) = some (if hit then some value else old)

abbrev pub succeeds : Option String → Bool
succeeds none = true
succeeds (some why) = false

-- The proxy has the gateway's name, references the connector, and its patch succeeds.
abbrev pub is_touched :
    (patch_error : String → Option String) → (connector_name gateway : String) → HttpProxy → Bool
is_touched patch_error connector_name gateway proxy =
    http_proxy_references_connector proxy connector_name
    && ((proxy.name == gateway) && succeeds (patch_error proxy.name))

abbrev pub fails_to_touch :
    (patch_error : String → Option String) → (connector_name : String) → HttpProxy → Bool
fails_to_touch patch_error connector_name proxy =
    http_proxy_references_connector proxy connector_name && not (succeeds (patch_error proxy.name))

stamp-stamp :
    (k a b : Bool) (value : String) (o : Option (Option String))
    → stamp (k && b) value (stamp (k && a) value o) ≡ stamp (k && (a || b)) value o
stamp-stamp k a b value none = refl
stamp-stamp true true b value (some old) = ground arith
stamp-stamp true false b value (some old) = refl
stamp-stamp false a b value (some old) = refl

patched-reading :
    (value name key gateway : String) (gateways : Gateways)
    → reading key gateway (patched value (lookup name gateways) name gateways)
      ≡ stamp
          ((connector_ready_annotation_key == key) && (name == gateway))
          value
          (reading key gateway gateways)
patched-reading value name key gateway gateways = elim (Option-cases (lookup name gateways)) [
  | inl e ↦ rw e (ground (arith, str_eq_iff name gateway))
  | inr (a, e) ↦ rw e (
      ground (
        arith,
        str_eq_iff name gateway,
        lookup-insert name gateway (insert connector_ready_annotation_key value a) gateways,
        lookup-insert connector_ready_annotation_key key value a,
      ))
]

touch_gateway-reading :
    (patch_error : String → Option String) (value name key gateway : String) (gateways : Gateways)
    → reading key gateway (touch_gateway patch_error value name gateways).0
      ≡ stamp
          ((connector_ready_annotation_key == key)
            && ((name == gateway) && succeeds (patch_error name)))
          value
          (reading key gateway gateways)
unfolding touch_gateway
touch_gateway-reading patch_error value name key gateway gateways =
    ground (arith, patched-reading value name key gateway gateways)

touch_gateways-reading :
    (patch_error : String → Option String) (connector_name value key gateway : String)
    (proxies : List HttpProxy) (gateways : Gateways)
    → reading key gateway (touch_gateways patch_error connector_name value proxies gateways).0
      ≡ stamp
          ((connector_ready_annotation_key == key)
            && any (is_touched patch_error connector_name gateway) proxies)
          value
          (reading key gateway gateways)
unfolding touch_gateways
touch_gateways-reading patch_error connector_name value key gateway [] gateways = ground (arith)
touch_gateways-reading patch_error connector_name value key gateway (proxy ∷ proxies) gateways =
    elim (Bool-cases (http_proxy_references_connector proxy connector_name)) [
      | inl e ↦ rw e (
          touch_gateways-reading patch_error connector_name value key gateway proxies
            (touch_gateway patch_error value proxy.name gateways).0
          ∙ (rw (touch_gateway-reading patch_error value proxy.name key gateway gateways) (
              stamp-stamp (connector_ready_annotation_key == key)
                ((proxy.name == gateway) && succeeds (patch_error proxy.name))
                (any (is_touched patch_error connector_name gateway) proxies) value
                (reading key gateway gateways))))
      | inr e ↦
          rw e
            (touch_gateways-reading patch_error connector_name value key gateway proxies gateways)
    ]

touch_gateways-fails :
    (patch_error : String → Option String) (connector_name value : String)
    (proxies : List HttpProxy) (gateways : Gateways)
    → succeeds (touch_gateways patch_error connector_name value proxies gateways).1
      ≡ not (any (fails_to_touch patch_error connector_name) proxies)
unfolding touch_gateways touch_gateway
touch_gateways-fails patch_error connector_name value [] gateways = refl
touch_gateways-fails patch_error connector_name value (proxy ∷ proxies) gateways =
    let reached =
      if http_proxy_references_connector proxy connector_name
      then (touch_gateway patch_error value proxy.name gateways).0
      else gateways in
    ground (arith, touch_gateways-fails patch_error connector_name value proxies reached)

-- If the API server has the connector and lists the proxies, the run stamps the connector's liveness
-- on exactly the gateways that are there, whose name is that of a proxy that references the connector,
-- and whose patch succeeds; no other annotation and no other gateway changes; and the run reports an
-- error exactly if the patch for some proxy that references the connector fails.
pub retrigger-result :
    (api : Api) (connector : Connector) (proxies : List HttpProxy) (namespace name : String)
    (gateways : Gateways)
    → api.get_connector ≡ present connector
    → api.list_proxies ≡ ok proxies
    → let r = retrigger api namespace name gateways in
      ((key gateway : String)
        → reading key gateway r.0
          ≡ stamp
              ((connector_ready_annotation_key == key)
                && any (is_touched api.patch_error name gateway) proxies)
              (liveness_value (connector_liveness api.unmarshal_status connector))
              (reading key gateway gateways))
      × (succeeds r.1 ≡ not (any (fails_to_touch api.patch_error name) proxies))
unfolding retrigger
retrigger-result api connector proxies namespace name gateways got listed =
    let value = liveness_value (connector_liveness api.unmarshal_status connector) in
    rw (got, listed)
      (
        λ key gateway.
            touch_gateways-reading api.patch_error name value key gateway proxies gateways,
        touch_gateways-fails api.patch_error name value proxies gateways,
      )
