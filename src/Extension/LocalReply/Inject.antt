-- ===== src/Extension/LocalReply/Inject.antt =====
-- The branded error page on every connection manager with dynamic routes, and its check at start-up
-- (internal/extensionserver/mutate/localreply.go).
use network_services_operato.Common.{
  ℕ, String, Bool, true, false, ◌||◌, [], ◌∷◌, Option, none, some, nat_beq, if◌then◌else◌,
}
use network_services_operato.Common.Result.{Result, ok}
use network_services_operato.Common.Text.{Bytes}
use network_services_operato.Extension.Xds.{Hcm, Listener, LocalReplyConfig}
use network_services_operato.Extension.Codec.{Codec, Error}
use network_services_operato.Extension.Hcm.{visit_listener}
use network_services_operato.Extension.Waf.Listener.{is_rds}
use network_services_operato.Extension.LocalReply.Escape.{
  escape_envoy_format_literals, assert_envoy_format_safe,
}

-- The fields of LocalReplyConfig in localreply.go.
pub record ErrorPage : Type 0 where
  pub disabled : Bool
  pub min_status_code : ℕ
  pub runtime_key : String
  pub body_html : Bytes
  pub content_type : String

abbrev pub default_min_status_code : ℕ
default_min_status_code = 500

abbrev is_empty : Bytes → Bool
is_empty [] = true
is_empty (b ∷ bs) = false

abbrev pub is_off : ErrorPage → Bool
is_off cfg = cfg.disabled || is_empty cfg.body_html

unfoldable pub build_local_reply_config : ErrorPage → LocalReplyConfig
build_local_reply_config cfg = record {
  mappers =
      record {
        status_ge = record {
          default_value =
              if nat_beq cfg.min_status_code 0
              then default_min_status_code
              else cfg.min_status_code;
          runtime_key = cfg.runtime_key;
        };
        status_code = none;
        content_type = cfg.content_type;
        inline_string = escape_envoy_format_literals cfg.body_html;
      }
      ∷ [];
}

module _ {Any : Type 0} where
  -- The body of the loop: `none` is a `continue`.
  unfoldable pub inject_local_reply : LocalReplyConfig → Hcm Any → Option (Hcm Any)
  inject_local_reply lrc hcm =
      if is_rds hcm.route_specifier
      then elim hcm.local_reply_config [
        | none ↦ some (record hcm { local_reply_config = some lrc })
        | some present ↦ none
      ]
      else none

-- GetMappers()[0]...GetInlineString()
abbrev pub injected_body : LocalReplyConfig → Bytes
injected_body lrc = elim lrc.mappers [ [] ↦ [] | m ∷ ms ↦ m.inline_string ]

pub data InvalidPage : Type 0 where
  marshal_failed : InvalidPage
  bare_percent : (offset : ℕ) → InvalidPage

abbrev pub unsafe_body : Option ℕ → Option InvalidPage
unsafe_body none = none
unsafe_body (some i) = some (bare_percent i)

module _ (c : Codec) where
  open c use {Any, packs_local_reply}

  unfoldable pub inject_local_reply_config :
      ErrorPage → Listener Any → Result Error (Listener Any × ℕ)
  unfolding inject_local_reply
  inject_local_reply_config cfg l =
      if is_off cfg
      then ok (l, 0)
      else visit_listener c (inject_local_reply (build_local_reply_config cfg)) l

  -- `none` is Go's nil error.
  unfoldable pub validate_local_reply_config : ErrorPage → Option InvalidPage
  unfolding build_local_reply_config
  validate_local_reply_config cfg =
      if is_off cfg
      then none
      else let lrc = build_local_reply_config cfg in
        if packs_local_reply lrc
        then unsafe_body (assert_envoy_format_safe (injected_body lrc))
        else some marshal_failed
