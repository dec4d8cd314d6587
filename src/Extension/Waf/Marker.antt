-- ===== src/Extension/Waf/Marker.antt =====
-- The metadata that the WAF pass writes on a route, read back by the scanner of the programmed set
-- (internal/extensionserver/mutate/tpp.go).
use network_services_operato.Common.{String, ◌≡◌, refl, ap, sym, ◌∙◌, Option, none, some, string_eq}
use network_services_operato.Common.Map.{lookup, insert, lookup-insert}
use network_services_operato.Extension.Xds.{Route}
use network_services_operato.Extension.Xds.Struct.{
  string_value, Fields, Metadata, get_field, get_string_value, get_list_value, get_struct_value,
  get_field-set_field,
}
use network_services_operato.Extension.Index.{TppInfo}
use network_services_operato.Extension.Waf.Routes.{
  extract_eg_resource, filter_metadata, eg_resources, with_project_name,
  build_datum_gateway_metadata, inject_project_name_metadata, with_waf,
}
use network_services_operato.Extension.Programmed.Scan.{
  TppMark, marker, marker_of, datum_gateway_tpp,
}

-- The project name in the datum-gateway metadata, "" if there is none.
abbrev pub project_field : Option Fields → String
project_field none = ""
project_field (some fs) = get_string_value (get_field "project_name" fs)

abbrev pub mark_of : TppInfo → TppMark
mark_of tpp = record { namespace = tpp.namespace; name = tpp.name; mode = tpp.mode }

lookup-insert_datum :
    (fs : Fields) (md : Metadata) → lookup "datum-gateway" (insert "datum-gateway" fs md) ≡ some fs
lookup-insert_datum fs md = lookup-insert "datum-gateway" "datum-gateway" fs md

lookup-insert_envoy :
    (fs : Fields) (md : Metadata)
    → lookup "envoy-gateway" (insert "datum-gateway" fs md) ≡ lookup "envoy-gateway" md
lookup-insert_envoy fs md = lookup-insert "datum-gateway" "envoy-gateway" fs md

extract-filter_metadata :
    (o : Option Metadata)
    → extract_eg_resource o ≡ eg_resources (lookup "envoy-gateway" (filter_metadata o))
unfolding extract_eg_resource lookup
extract-filter_metadata none = refl
extract-filter_metadata (some md) = refl

marker-filter_metadata :
    (o : Option Metadata) → marker_of o ≡ marker (lookup "datum-gateway" (filter_metadata o))
unfolding lookup
marker-filter_metadata none = refl
marker-filter_metadata (some md) = refl

project_field-with_project_name :
    (project : String) (o : Option Fields)
    → project_field (some (with_project_name project o)) ≡ project
unfolding get_string_value
project_field-with_project_name project none = unfold get_field in refl
project_field-with_project_name project (some fs) =
    rw (get_field-set_field "project_name" "project_name" (string_value project) fs)

marker-with_project_name :
    (project : String) (o : Option Fields) → marker (some (with_project_name project o)) ≡ marker o
unfolding get_list_value
marker-with_project_name project none = unfold get_field in refl
marker-with_project_name project (some fs) =
    rw (get_field-set_field "project_name" "resources" (string_value project) fs)

module _ {Any : Type 0} where
  unfoldable pub project_name_of : Route Any → String
  project_name_of rt = project_field (lookup "datum-gateway" (filter_metadata rt.metadata))

  pub inject-project_name_of :
      (project : String) (rt : Route Any)
      → project_name_of (inject_project_name_metadata project rt) ≡ project
  unfolding inject_project_name_metadata project_name_of
  inject-project_name_of project rt =
      ap project_field (lookup-insert_datum _ (filter_metadata rt.metadata))
      ∙ project_field-with_project_name project _

  pub inject-extract :
      (project : String) (rt : Route Any)
      → extract_eg_resource (inject_project_name_metadata project rt).metadata
        ≡ extract_eg_resource rt.metadata
  unfolding inject_project_name_metadata
  inject-extract project rt =
      extract-filter_metadata (inject_project_name_metadata project rt).metadata
      ∙ ap eg_resources (lookup-insert_envoy _ (filter_metadata rt.metadata))
      ∙ sym (extract-filter_metadata rt.metadata)

  pub inject-datum_gateway_tpp :
      (project : String) (rt : Route Any)
      → datum_gateway_tpp (inject_project_name_metadata project rt) ≡ datum_gateway_tpp rt
  unfolding inject_project_name_metadata datum_gateway_tpp
  inject-datum_gateway_tpp project rt =
      ap marker (lookup-insert_datum _ (filter_metadata rt.metadata))
      ∙ marker-with_project_name project _
      ∙ sym (marker-filter_metadata rt.metadata)

  pub with_waf-datum_gateway_tpp :
      (rt : Route Any) (tpp : TppInfo) (project filter_name : String) (a : Any)
      → datum_gateway_tpp (with_waf rt tpp project filter_name a) ≡ some (mark_of tpp)
  unfolding with_waf datum_gateway_tpp
  with_waf-datum_gateway_tpp rt tpp project filter_name a =
      ap marker (
        lookup-insert_datum (build_datum_gateway_metadata tpp project)
          (filter_metadata rt.metadata))
      ∙ (unfold build_datum_gateway_metadata get_field get_list_value get_struct_value
            get_string_value in
          refl)

  pub with_waf-project_name_of :
      (rt : Route Any) (tpp : TppInfo) (project filter_name : String) (a : Any)
      → project_name_of (with_waf rt tpp project filter_name a) ≡ project
  unfolding with_waf project_name_of
  with_waf-project_name_of rt tpp project filter_name a =
      ap project_field (
        lookup-insert_datum (build_datum_gateway_metadata tpp project)
          (filter_metadata rt.metadata))
      ∙ (unfold build_datum_gateway_metadata get_field get_string_value in refl)
