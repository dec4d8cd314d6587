-- ===== src/Extension/Waf/Routes.antt =====
-- Which policy governs a route, and what is written on it
-- (internal/extensionserver/mutate/tpp.go).
use network_services_operato.Common.{
  ℕ, String, Bool, true, false, ◌&&◌, List, [], ◌∷◌, Option, none, some, ◌==◌, string_eq,
  if◌then◌else◌,
}
use network_services_operato.Common.Map.{lookup, insert}
use network_services_operato.Common.Result.{Result, ok, err, both, counted}
use network_services_operato.Extension.Xds.{Route, VirtualHost, RouteConfiguration}
use network_services_operato.Extension.Xds.Struct.{
  string_value, list_value, struct_value, nil, cons, Values, Fields, empty, field, Metadata,
  get_field, set_field, get_string_value, get_list_value, get_struct_value,
}
use network_services_operato.Extension.Codec.{Codec, Error, apply_waf}
use network_services_operato.Extension.Index.{TargetRef, TppInfo, PolicyIndex}
use network_services_operato.Extension.Waf.Listener.{CorazaConfig, build_coraza_configs_per_route}

abbrev pub datum_gateway_metadata_key : String
datum_gateway_metadata_key = "datum-gateway"

abbrev pub envoy_gateway_metadata_key : String
envoy_gateway_metadata_key = "envoy-gateway"

abbrev pub kind_gateway : String
kind_gateway = "Gateway"

abbrev pub kind_http_route : String
kind_http_route = "HTTPRoute"

abbrev pub targets : String → String → List TargetRef → Bool
targets kind name [] = false
targets kind name (ref ∷ refs) =
    if (ref.kind == kind) && (ref.name == name) then true else targets kind name refs

abbrev pub first_targeting : String → String → List TppInfo → Option TppInfo
first_targeting kind name [] = none
first_targeting kind name (tpp ∷ tpps) =
    if targets kind name tpp.target_refs then some tpp else first_targeting kind name tpps

unfoldable pub find_gateway_tpp : List TppInfo → String → Option TppInfo
find_gateway_tpp tpps gateway_name = first_targeting kind_gateway gateway_name tpps

unfoldable pub find_route_tpp : List TppInfo → String → Option TppInfo
find_route_tpp tpps route_name =
    if route_name == "" then none else first_targeting kind_http_route route_name tpps

-- The first resource that Envoy Gateway names; `none` is ok = false.
pub record EgResource : Type 0 where
  pub kind : String
  pub namespace : String
  pub name : String

abbrev pub eg_fields : Option Fields → Option EgResource
eg_fields none = none
eg_fields (some fs) = some (record {
  kind = get_string_value (get_field "kind" fs);
  namespace = get_string_value (get_field "namespace" fs);
  name = get_string_value (get_field "name" fs);
})

abbrev pub first_resource : Option Values → Option EgResource
first_resource none = none
first_resource (some nil) = none
first_resource (some (cons v vs)) = eg_fields (get_struct_value v)

abbrev pub eg_resources : Option Fields → Option EgResource
eg_resources none = none
eg_resources (some fs) = first_resource (get_list_value (get_field "resources" fs))

unfoldable pub extract_eg_resource : Option Metadata → Option EgResource
extract_eg_resource none = none
extract_eg_resource (some md) = eg_resources (lookup envoy_gateway_metadata_key md)

-- The name of the resource, "" if there is none.
abbrev pub eg_name : Option EgResource → String
eg_name none = ""
eg_name (some r) = r.name

-- The map of a route's metadata, made where it is nil.
abbrev pub filter_metadata : Option Metadata → Metadata
filter_metadata none = []
filter_metadata (some md) = md

abbrev pub with_project_name : String → Option Fields → Fields
with_project_name project none = field "project_name" (string_value project) empty
with_project_name project (some fs) = set_field "project_name" (string_value project) fs

unfoldable pub build_datum_gateway_metadata : TppInfo → String → Fields
build_datum_gateway_metadata tpp project = field "project_name" (string_value project) (
    field "resources"
      (list_value (
        cons
          (struct_value (
            field "kind" (string_value "TrafficProtectionPolicy") (
              field "namespace" (string_value tpp.namespace) (
                field "name" (string_value tpp.name)
                  (field "mode" (string_value tpp.mode) empty)))))
          nil))
      empty)

abbrev pub has_directives : List String → Bool
has_directives [] = false
has_directives (d ∷ ds) = true

abbrev pub governing : Option TppInfo → Option TppInfo → Option TppInfo
governing none gw_tpp = gw_tpp
governing (some route_tpp) gw_tpp = some route_tpp

module _ {Any : Type 0} where
  unfoldable pub inject_project_name_metadata : String → Route Any → Route Any
  inject_project_name_metadata project rt =
      let md = filter_metadata rt.metadata in
      record rt {
        metadata = some (
            insert datum_gateway_metadata_key
              (with_project_name project (lookup datum_gateway_metadata_key md)) md);
      }

  -- What applyRouteWAFConfig leaves on the route when it succeeds.
  unfoldable pub with_waf : Route Any → TppInfo → String → String → Any → Route Any
  with_waf rt tpp project filter_name tpfc = record rt {
    metadata = some (
        insert datum_gateway_metadata_key (build_datum_gateway_metadata tpp project)
          (filter_metadata rt.metadata));
    typed_per_filter_config = insert filter_name tpfc rt.typed_per_filter_config;
  }

module _ (c : Codec) where
  open c use {Any}

  unfoldable pub apply_route_waf_config :
      CorazaConfig → Route Any → TppInfo → String → Result Error (Route Any × ℕ)
  unfolding with_waf build_datum_gateway_metadata
  apply_route_waf_config cfg rt tpp project =
      elim (build_coraza_configs_per_route c tpp.directives cfg) [
        | none ↦ err (apply_waf rt.name)
        | some tpfc ↦ ok (with_waf rt tpp project cfg.filter_name tpfc, 1)
      ]

  -- The rest of the loop's body once the governing policy is known.
  unfoldable pub apply_governing :
      CorazaConfig → String → Route Any → Option TppInfo → Result Error (Route Any × ℕ)
  unfolding apply_route_waf_config
  apply_governing cfg project rt none = ok (rt, 0)
  apply_governing cfg project rt (some tpp) =
      if has_directives tpp.directives
      then apply_route_waf_config cfg rt tpp project
      else ok (rt, 0)

  abbrev pub governing_tpp : List TppInfo → Option TppInfo → Route Any → Option TppInfo
  governing_tpp tpps gw_tpp rt =
      governing (find_route_tpp tpps (eg_name (extract_eg_resource rt.metadata))) gw_tpp

  -- The body of the loop over the routes of a virtual host.
  unfoldable pub apply_tpp_route :
      CorazaConfig
      → String
      → List TppInfo
      → Option TppInfo
      → Route Any
      → Result Error (Route Any × ℕ)
  unfolding apply_governing
  apply_tpp_route cfg project tpps gw_tpp route =
      let rt = inject_project_name_metadata project route in
      if cfg.disabled
      then ok (rt, 0)
      else apply_governing cfg project rt (governing_tpp tpps gw_tpp rt)

  unfoldable pub apply_tpp_routes :
      CorazaConfig
      → String
      → List TppInfo
      → Option TppInfo
      → List (Route Any)
      → Result Error (List (Route Any) × ℕ)
  apply_tpp_routes cfg project tpps gw_tpp [] = ok ([], 0)
  apply_tpp_routes cfg project tpps gw_tpp (rt ∷ rts) =
      both (λ r rs. r ∷ rs) (apply_tpp_route cfg project tpps gw_tpp rt)
        (apply_tpp_routes cfg project tpps gw_tpp rts)

  -- idx.ProjectNames[dsNS], idx.TPPs[upstreamNS]: the zero value where the key is missing.
  abbrev pub project_name : PolicyIndex → String → String
  project_name idx ds_ns = elim (lookup ds_ns idx.project_names) [ none ↦ "" | some p ↦ p ]

  abbrev pub tpps_of : PolicyIndex → String → List TppInfo
  tpps_of idx ns = elim (lookup ns idx.tpps) [ none ↦ [] | some ts ↦ ts ]

  abbrev pub apply_owned :
      PolicyIndex
      → CorazaConfig
      → VirtualHost Any
      → EgResource
      → Option String
      → Result Error (VirtualHost Any × ℕ)
  apply_owned idx cfg vh gw none = ok (vh, 0)
  apply_owned idx cfg vh gw (some upstream_ns) =
      counted (λ rts. record vh { routes = rts })
        (apply_tpp_routes cfg (project_name idx gw.namespace) (tpps_of idx upstream_ns)
          (find_gateway_tpp (tpps_of idx upstream_ns) gw.name) vh.routes)

  -- The body of the loop over the virtual hosts.
  unfoldable pub apply_tpp_virtual_host :
      PolicyIndex → CorazaConfig → VirtualHost Any → Result Error (VirtualHost Any × ℕ)
  apply_tpp_virtual_host idx cfg vh = elim (extract_eg_resource vh.metadata) [
    | none ↦ ok (vh, 0)
    | some gw ↦
        if gw.kind == kind_gateway
        then apply_owned idx cfg vh gw (lookup gw.namespace idx.ds_to_us)
        else ok (vh, 0)
  ]

  unfoldable pub apply_tpp_virtual_hosts :
      PolicyIndex
      → CorazaConfig
      → List (VirtualHost Any)
      → Result Error (List (VirtualHost Any) × ℕ)
  apply_tpp_virtual_hosts idx cfg [] = ok ([], 0)
  apply_tpp_virtual_hosts idx cfg (vh ∷ vhs) =
      both (λ v vs. v ∷ vs) (apply_tpp_virtual_host idx cfg vh)
        (apply_tpp_virtual_hosts idx cfg vhs)

  unfoldable pub apply_tpp_route_config :
      PolicyIndex
      → CorazaConfig
      → RouteConfiguration Any
      → Result Error (RouteConfiguration Any × ℕ)
  unfolding apply_tpp_virtual_hosts apply_tpp_virtual_host apply_tpp_routes apply_tpp_route
  apply_tpp_route_config idx cfg rc =
      counted (λ vhs. record rc { virtual_hosts = vhs })
        (apply_tpp_virtual_hosts idx cfg rc.virtual_hosts)
