-- ===== src/Extension/Waf/Listener.antt =====
-- The disabled Coraza filter on every connection manager, and the messages that carry Coraza's
-- settings (internal/extensionserver/mutate/tpp.go).
use Prim.Native.Char.{code}
use network_services_operato.Common.{
  ℕ, String, Bool, true, false, ◌||◌, List, [], ◌∷◌, Option, none, some, ◌==◌, string_eq, nat_beq,
  if◌then◌else◌,
}
use network_services_operato.Common.Result.{Result, ok, err}
use network_services_operato.Extension.Xds.{HttpFilter, RouteSpecifier, rds, Hcm, Listener}
use network_services_operato.Extension.Codec.{Codec, Error, build_coraza_filter}
use network_services_operato.Extension.Hcm.{visit_listener}

pub record CorazaConfig : Type 0 where
  pub disabled : Bool
  pub filter_name : String
  pub library_id : String
  pub library_path : String
  pub plugin_name : String
  pub listener_directives : List String
  pub trace_route_metadata_extractor : String

-- strings.ReplaceAll of one byte by nothing
unfoldable pub remove_char : ℕ → String → String
remove_char k String.[] = String.[]
remove_char k (String.◌∷◌ c s) =
    let rest = remove_char k s in if nat_beq (code c) k then rest else String.◌∷◌ c rest

unfoldable pub sanitize_json_path : String → String
unfolding remove_char
sanitize_json_path s = remove_char 9 (remove_char 10 s)

-- GetRds() != nil
abbrev pub is_rds : RouteSpecifier → Bool
is_rds rds = true
is_rds _ = false

module _ {Any : Type 0} where
  unfoldable pub has_filter_named : String → List (HttpFilter Any) → Bool
  has_filter_named name [] = false
  has_filter_named name (f ∷ fs) = if f.name == name then true else has_filter_named name fs

  unfoldable pub hcm_has_filter : Hcm Any → String → Bool
  unfolding has_filter_named
  hcm_has_filter hcm name = has_filter_named name hcm.http_filters

  abbrev pub coraza_filter : CorazaConfig → Any → HttpFilter Any
  coraza_filter cfg a = record { name = cfg.filter_name; disabled = true; typed_config = some a }

  -- The body of the loop: `none` is a `continue`.
  unfoldable pub inject_coraza_filter : CorazaConfig → Any → Hcm Any → Option (Hcm Any)
  unfolding hcm_has_filter
  inject_coraza_filter cfg a hcm =
      if is_rds hcm.route_specifier
      then if hcm_has_filter hcm cfg.filter_name
        then none
        else some (record hcm { http_filters = coraza_filter cfg a ∷ hcm.http_filters })
      else none

abbrev pub extractor : String → Option String
extractor s = if s == "" then none else some s

module _ (c : Codec) where
  open c use {Any, pack_plugin, pack_golang, pack_per_route, json_directives}

  unfoldable pub coraza_plugin_config_any : List String → CorazaConfig → Option Any
  unfolding sanitize_json_path
  coraza_plugin_config_any directives cfg = pack_plugin (record {
    log_format = "json";
    directives = sanitize_json_path (json_directives directives);
    default_directive = "coraza";
    trace_route_metadata_extractor = extractor cfg.trace_route_metadata_extractor;
  })

  unfoldable pub coraza_listener_filter_any : CorazaConfig → Option Any
  unfolding coraza_plugin_config_any
  coraza_listener_filter_any cfg = elim (coraza_plugin_config_any cfg.listener_directives cfg) [
    | none ↦ none
    | some pc ↦ pack_golang (record {
      library_id = cfg.library_id;
      library_path = cfg.library_path;
      plugin_name = cfg.plugin_name;
      plugin_config = pc;
    })
  ]

  unfoldable pub build_coraza_configs_per_route : List String → CorazaConfig → Option Any
  unfolding coraza_plugin_config_any
  build_coraza_configs_per_route directives cfg = elim (coraza_plugin_config_any directives cfg) [
    | none ↦ none
    | some pc ↦ pack_per_route cfg.plugin_name pc
  ]

  abbrev pub inject_coraza_any :
      CorazaConfig → Listener Any → Option Any → Result Error (Listener Any × ℕ)
  inject_coraza_any cfg l none = err build_coraza_filter
  inject_coraza_any cfg l (some a) = visit_listener c (inject_coraza_filter cfg a) l

  unfoldable pub inject_coraza_listener_filters :
      CorazaConfig → Listener Any → Result Error (Listener Any × ℕ)
  unfolding inject_coraza_filter coraza_listener_filter_any
  inject_coraza_listener_filters cfg l =
      if cfg.disabled || (cfg.filter_name == "")
      then ok (l, 0)
      else inject_coraza_any cfg l (coraza_listener_filter_any cfg)
