-- ===== src/Extension/Programmed/Scan.antt =====
-- The scanners that read a change back from the configuration
-- (internal/extensionserver/server/programmedset_scan.go).
use network_services_operato.Common.{
  ℕ, String, Bool, true, false, ◌&&◌, List, [], ◌∷◌, map, Option, none, some, ◌==◌, string_eq,
  nat_beq, leb, if◌then◌else◌,
}
use network_services_operato.Common.Go.{◌+s◌}
use network_services_operato.Common.Map.{lookup}
use network_services_operato.Common.Text.{codes, bytes_beq, bytes_leb}
use network_services_operato.Extension.Xds.{
  Route, Action, route, direct_response, other_action, Cluster, Hcm, HttpFilter,
}
use network_services_operato.Extension.Xds.Struct.{
  Values, nil, cons, Fields, Metadata, get_field, get_string_value, get_list_value,
  get_struct_value,
}

abbrev pub key_sep : String
key_sep = "##"

unfoldable pub waf_route_key : (rc vh rt tpp_ns tpp_name mode : String) → String
waf_route_key rc vh rt tpp_ns tpp_name mode =
    rc +s key_sep +s vh +s key_sep +s rt +s key_sep +s tpp_ns +s "/" +s tpp_name +s "/" +s mode

unfoldable pub connector_route_key : (rc vh rt : String) → String
connector_route_key rc vh rt = rc +s key_sep +s vh +s key_sep +s rt

unfoldable pub listener_chain_key : (listener chain : String) → String
listener_chain_key listener chain = listener +s key_sep +s chain

-- The policy that a route's marker names; `none` is ok = false.
pub record TppMark : Type 0 where
  pub namespace : String
  pub name : String
  pub mode : String

abbrev pub string_field : String → Option Fields → String
string_field k none = ""
string_field k (some fs) = get_string_value (get_field k fs)

abbrev pub first_mark : Option Values → Option TppMark
first_mark none = none
first_mark (some nil) = none
first_mark (some (cons v vs)) = some (record {
  namespace = string_field "namespace" (get_struct_value v);
  name = string_field "name" (get_struct_value v);
  mode = string_field "mode" (get_struct_value v);
})

abbrev pub marker : Option Fields → Option TppMark
marker none = none
marker (some dg) = first_mark (get_list_value (get_field "resources" dg))

abbrev pub marker_of : Option Metadata → Option TppMark
marker_of none = none
marker_of (some md) = marker (lookup "datum-gateway" md)

abbrev pub upper : ℕ → ℕ
upper k = if leb b'a' k && leb k b'z' then Prim.Native.Nat.◌-◌ k 32 else k

-- strings.EqualFold(s, "CONNECT"); no other character folds to one of its letters.
unfoldable pub folds_to_connect : String → Bool
folds_to_connect s = bytes_beq (map upper (codes s)) (codes "CONNECT")

abbrev pub any_connect : List String → Bool
any_connect [] = false
any_connect (u ∷ us) = if folds_to_connect u then true else any_connect us

abbrev pub offline_body_marker : String
offline_body_marker = "Tunnel not online"

abbrev pub connector_internal_transport : String
connector_internal_transport = "envoy.transport_sockets.internal_upstream"

abbrev pub connects : Action → Bool
connects (route cluster upgrade_types) = any_connect upgrade_types
connects (direct_response dr) = false
connects other_action = false

abbrev pub is_offline : Action → Bool
is_offline (route cluster upgrade_types) = false
is_offline (direct_response dr) =
    if nat_beq dr.status 503 then dr.body == offline_body_marker else false
is_offline other_action = false

module _ {Any : Type 0} where
  unfoldable pub datum_gateway_tpp : Route Any → Option TppMark
  datum_gateway_tpp rt = marker_of rt.metadata

  unfoldable pub is_connect_route : Route Any → Bool
  is_connect_route rt = connects rt.action

  unfoldable pub is_offline_direct_response : Route Any → Bool
  is_offline_direct_response rt = is_offline rt.action

  abbrev pub first_is : String → List (HttpFilter Any) → Bool
  first_is name [] = false
  first_is name (f ∷ fs) = f.name == name

  unfoldable pub hcm_has_filter_at_zero : Hcm Any → String → Bool
  hcm_has_filter_at_zero hcm name = first_is name hcm.http_filters

unfoldable pub is_replaced_connector_cluster : Cluster → Bool
is_replaced_connector_cluster cl =
    if cl.is_static then cl.transport_socket == connector_internal_transport else false

-- sort.Strings, on texts with Go's order.
abbrev pub le_text : String → String → Bool
le_text s t = bytes_leb (codes s) (codes t)

unfoldable pub insert_sorted : String → List String → List String
insert_sorted s [] = s ∷ []
insert_sorted s (t ∷ ts) = if le_text s t then s ∷ t ∷ ts else t ∷ insert_sorted s ts

unfoldable pub sort_strings : List String → List String
unfolding insert_sorted
sort_strings [] = []
sort_strings (s ∷ ss) = insert_sorted s (sort_strings ss)

abbrev pub seen_before : String → List String → Bool
seen_before s [] = false
seen_before s (t ∷ ts) = if t == s then true else seen_before s ts

-- The loop of sortDedup: `seen` holds what is in `out`.
unfoldable pub dedup_from : List String → List String → List String
dedup_from seen [] = []
dedup_from seen (s ∷ ss) =
    let skip = dedup_from seen ss in
    let keep = s ∷ dedup_from (s ∷ seen) ss in if seen_before s seen then skip else keep

unfoldable pub sort_dedup : List String → List String
unfolding sort_strings dedup_from
sort_dedup ss = sort_strings (dedup_from [] ss)
