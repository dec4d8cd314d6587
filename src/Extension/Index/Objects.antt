-- ===== src/Extension/Index/Objects.antt =====
-- The Kubernetes objects that the index is built from, as far as it reads them
-- (api/v1alpha/trafficprotectionpolicy_types.go, internal/extensionserver/cache/index.go). What comes
-- from the API server and from packages outside the repository is in `Cluster`: `none` is an error.
use network_services_operato.Common.{
  ℕ, String, ltb, List, [], ◌∷◌, Option, none, some, ◌==◌, string_eq, if◌then◌else◌,
}
use network_services_operato.Common.Map.{lookup}
use network_services_operato.Extension.Index.{TargetRef}

abbrev pub Labels : Type 0
Labels = List (String × String)

-- A missing key reads as "".
abbrev pub text_or_empty : Option String → String
text_or_empty none = ""
text_or_empty (some s) = s

abbrev pub label : String → Labels → String
label k m = text_or_empty (lookup k m)

pub record Namespace : Type 0 where
  pub name : String
  pub labels : Labels

pub record ParanoiaLevels : Type 0 where
  pub blocking : ℕ
  pub detection : ℕ

pub record OwaspRuleExclusions : Type 0 where
  pub tags : List String
  pub ids : List ℕ
  pub id_ranges : List String

pub record OwaspCrs : Type 0 where
  pub paranoia_levels : ParanoiaLevels
  pub inbound : ℕ
  pub outbound : ℕ
  pub rule_exclusions : Option OwaspRuleExclusions

pub record RuleSet : Type 0 where
  pub type : String
  pub owasp_core_rule_set : OwaspCrs

pub record Tpp : Type 0 where
  pub namespace : String
  pub name : String
  pub labels : Labels
  pub creation_timestamp : ℕ
  pub mode : String
  pub sampling_percentage : ℕ
  pub target_refs : List TargetRef
  pub rule_sets : List RuleSet

abbrev pub owasp_core_rule_set_type : String
owasp_core_rule_set_type = "OWASPCoreRuleSet"

-- The first paranoia levels that are inverted, `none` if there are none.
unfoldable pub inverted_paranoia_levels : List RuleSet → Option ParanoiaLevels
inverted_paranoia_levels [] = none
inverted_paranoia_levels (rs ∷ rss) =
    let rest = inverted_paranoia_levels rss in
    let levels = rs.owasp_core_rule_set.paranoia_levels in
    if rs.type == owasp_core_rule_set_type
    then if ltb levels.detection levels.blocking then some levels else rest
    else rest

pub record Backend : Type 0 where
  pub endpoint : String
  pub connector : Option String

pub record HttpProxy : Type 0 where
  pub namespace : String
  pub name : String
  pub labels : Labels
  -- The backends of each rule.
  pub rules : List (List Backend)

pub record Condition : Type 0 where
  pub type : String
  pub status : String

pub record ConnectionDetails : Type 0 where
  pub type : String
  pub public_key_id : Option String

pub record ConnectorStatus : Type 0 where
  pub conditions : List Condition
  pub connection_details : Option ConnectionDetails

pub record Connector : Type 0 where
  pub annotations : Labels
  pub status : ConnectorStatus

pub record Url : Type 0 where
  pub scheme : String
  pub hostname : String
  pub port : String

pub record Cluster : Type 0 where
  pub namespaces : Option (List Namespace)
  pub tpps : Option (List Tpp)
  pub proxies : Option (List HttpProxy)
  pub get_connector : (namespace name : String) → Option Connector
  pub parse_url : String → Option Url
  pub unmarshal_status : String → Option ConnectorStatus
  -- %q
  pub quote : String → String
