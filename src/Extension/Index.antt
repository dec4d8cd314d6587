-- ===== src/Extension/Index.antt =====
-- The policy index that one call of the hook works from (internal/extensionserver/cache/types.go).
pub mod Objects
pub mod Directives
pub mod Build
pub mod Order
pub mod Govern
pub mod Enforce
use network_services_operato.Common.{
  String, Bool, List, ◌≡◌, refl, ◌↔◌, ◌==◌, string_eq, str_eq_iff, ◌&&◌, true, arith, Eq,
}
use network_services_operato.Common.Int.{ℤ, int_eq, int_beq_iff}

-- A target reference of a policy, as far as the server reads it.
pub record TargetRef : Type 0 where
  pub kind : String
  pub name : String

pub record TppInfo : Type 0 where
  pub namespace : String
  pub name : String
  pub mode : String
  pub target_refs : List TargetRef
  pub directives : List String

pub record ConnectorInfo : Type 0 where
  pub online : Bool
  pub target_host : String
  pub target_port : ℤ
  pub node_id : String

pub record ConnectorKey : Type 0 where
  pub upstream_ns : String
  pub http_proxy_name : String
  pub rule_index : ℤ

abbrev pub key_beq : ConnectorKey → ConnectorKey → Bool
key_beq a b =
    (a.upstream_ns == b.upstream_ns)
    && (a.http_proxy_name == b.http_proxy_name)
    && (a.rule_index == b.rule_index)

pub key_beq_iff : (a b : ConnectorKey) → (key_beq a b ≡ true) ↔ (a ≡ b)
key_beq_iff a b = ground (
  arith,
  str_eq_iff a.upstream_ns b.upstream_ns,
  str_eq_iff a.http_proxy_name b.http_proxy_name,
  int_beq_iff a.rule_index b.rule_index,
)

instance abbrev pub key_eq : Eq ConnectorKey
key_eq = record { same = key_beq; same_iff = key_beq_iff }

pub record PolicyIndex : Type 0 where
  pub ds_to_us : List (String × String)
  pub project_names : List (String × String)
  pub tpps : List (String × List TppInfo)
  pub connectors : List (ConnectorKey × ConnectorInfo)
