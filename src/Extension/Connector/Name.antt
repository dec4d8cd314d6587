-- ===== src/Extension/Connector/Name.antt =====
-- The names that the connector pass reads and makes
-- (internal/extensionserver/mutate/connector.go, shared.go).
use Prim.Native.Char.{code}
use network_services_operato.Common.{
  ℕ, String, Bool, true, false, ◌&&◌, List, [], ◌∷◌, Option, none, some, ◌==◌, string_eq, nat_beq,
  if◌then◌else◌,
}
use network_services_operato.Common.Int.{ℤ}
use network_services_operato.Common.Go.{◌+s◌, split, atoi}

pub record ClusterName : Type 0 where
  pub ds_ns : String
  pub proxy_name : String
  pub rule_index : ℤ

abbrev pub with_index : String → String → Option ℤ → Option ClusterName
with_index ns proxy none = none
with_index ns proxy (some i) = some (record { ds_ns = ns; proxy_name = proxy; rule_index = i })

abbrev pub five_parts : List String → Option ClusterName
five_parts (a ∷ ns ∷ proxy ∷ r ∷ i ∷ []) =
    if (a == "httproute") && (r == "rule") then with_index ns proxy (atoi i) else none
five_parts _ = none

-- `none` is ok = false.
unfoldable pub parse_connector_cluster_name : String → Option ClusterName
unfolding split
parse_connector_cluster_name name = five_parts (split b'/' name)

-- strings.NewReplacer("/", "-", " ", "-", ":", "-")
abbrev pub is_replaced : ℕ → Bool
is_replaced k = if nat_beq k b'/' then true else if nat_beq k b' ' then true else nat_beq k b':'

unfoldable pub sanitize_id : String → String
sanitize_id String.[] = String.[]
sanitize_id (String.◌∷◌ ch s) =
    let rest = sanitize_id s in if is_replaced (code ch) then "-" +s rest else String.◌∷◌ ch rest

unfoldable pub connector_match_domain : String → String
unfolding sanitize_id
connector_match_domain vh_name = sanitize_id vh_name +s ".connector.internal"

abbrev pub contains : String → List String → Bool
contains v [] = false
contains v (s ∷ ss) = if s == v then true else contains v ss

abbrev pub push_back : String → List String → List String
push_back v [] = v ∷ []
push_back v (s ∷ ss) = s ∷ push_back v ss

unfoldable pub append_unique : List String → String → List String
append_unique ss v = if contains v ss then ss else push_back v ss
