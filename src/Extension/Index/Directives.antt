-- ===== src/Extension/Index/Directives.antt =====
-- The directives of a policy (internal/extensionserver/cache/index.go).
use network_services_operato.Common.{
  ℕ, String, ◌&&◌, ltb, List, [], ◌∷◌, ◌++◌, map, Option, none, some, ◌==◌, string_eq,
  if◌then◌else◌,
}
use network_services_operato.Common.Int.{pos}
use network_services_operato.Common.Go.{◌+s◌, show_int}
use network_services_operato.Extension.Index.Objects.{
  OwaspRuleExclusions, OwaspCrs, RuleSet, Tpp, owasp_core_rule_set_type, inverted_paranoia_levels,
}

abbrev pub first_owasp : List RuleSet → Option OwaspCrs
first_owasp [] = none
first_owasp (rs ∷ rss) =
    if rs.type == owasp_core_rule_set_type then some rs.owasp_core_rule_set else first_owasp rss

abbrev pub sec_rule_engine : String → String
sec_rule_engine mode =
    if mode == "Enforce" then "On" else if mode == "Disabled" then "Off" else "DetectionOnly"

abbrev number : ℕ → String
number n = show_int (pos n)

abbrev pub sampling : ℕ → List String
sampling p =
    if ltb 0 p && ltb p 100
    then ("SecAction \"id:900400,phase:1,pass,nolog,setvar:tx.sampling_percentage="
        +s number p
        +s "\"")
      ∷ []
    else []

abbrev pub exclusions : (String → String) → Option OwaspRuleExclusions → List String
exclusions quote none = []
exclusions quote (some ex) =
    map (λ tag. "SecRuleRemoveByTag " +s quote tag) ex.tags
    ++ (map (λ v. "SecRuleRemoveById " +s number v) ex.ids
        ++ map (λ v. "SecRuleRemoveById " +s quote v) ex.id_ranges)

abbrev pub crs_directives : (String → String) → Tpp → List String → Option OwaspCrs → List String
crs_directives quote tpp base none = []
crs_directives quote tpp base (some crs) =
    base
    ++ (("SecRuleEngine " +s sec_rule_engine tpp.mode)
        ∷ ("SecAction \"id:900110,phase:1,nolog,pass,t:none,setvar:tx.inbound_anomaly_score_threshold="
            +s number crs.inbound
            +s ",setvar:tx.outbound_anomaly_score_threshold="
            +s number crs.outbound
            +s "\"")
        ∷ ("SecAction \"id:900000,phase:1,pass,t:none,nolog,tag:'OWASP_CRS',setvar:tx.blocking_paranoia_level="
            +s number crs.paranoia_levels.blocking
            +s "\"")
        ∷ ("SecAction \"id:900001,phase:1,pass,t:none,nolog,tag:'OWASP_CRS',setvar:tx.detection_paranoia_level="
            +s number crs.paranoia_levels.detection
            +s "\"")
        ∷ (sampling tpp.sampling_percentage
            ++ ("Include @owasp_crs/*.conf" ∷ exclusions quote crs.rule_exclusions)))

-- A nil list is an empty one.
unfoldable pub compute_coraza_directives : (String → String) → Tpp → List String → List String
compute_coraza_directives quote tpp base = elim (inverted_paranoia_levels tpp.rule_sets) [
  | some levels ↦ []
  | none ↦ crs_directives quote tpp base (first_owasp tpp.rule_sets)
]
