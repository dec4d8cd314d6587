-- ===== src/Tests/Bodies.antt =====
-- Bodies of error pages (internal/extensionserver/mutate/localreply.go).
use network_services_operato.Common.{◌++◌, length, ◌↔◌, ◌≡◌, refl, [], ◌∷◌, none}
use network_services_operato.Common.Text.{Bytes}
use network_services_operato.Extension.LocalReply.Escape.{
  escape_envoy_format_literals, assert_envoy_format_safe,
}
use network_services_operato.Extension.LocalReply.Percent.{IsSafe}
use network_services_operato.Extension.LocalReply.EscapeSafe.{
  escape-IsSafe, escape_idempotent, escape-without_percent, without_percent,
}
use network_services_operato.Extension.LocalReply.AssertSafe.{
  IsBare, assert_sound, assert-eq-none_iff,
}
use network_services_operato.Extension.LocalReply.Inject.{validate_local_reply_config}
use network_services_operato.Extension.LocalReply.InjectSafe.{validate_local_reply_lem}
use network_services_operato.Tests.Samples.{codec, page}
use network_services_operato.Extension.LocalReply.Escape.{match_allowed_command, percent}

-- "5%"
abbrev half : Bytes
half = b'5' ∷ b'%' ∷ []

-- "%%5%%"
abbrev doubled : Bytes
doubled = b'%' ∷ b'%' ∷ b'5' ∷ b'%' ∷ b'%' ∷ []

escaped_half : escape_envoy_format_literals half ≡ b'5' ∷ b'%' ∷ b'%' ∷ []
unfolding escape_envoy_format_literals match_allowed_command
escaped_half = refl

escape-IsSafe_example : IsSafe (escape_envoy_format_literals half)
escape-IsSafe_example = escape-IsSafe half

escape_idempotent_example :
    escape_envoy_format_literals (escape_envoy_format_literals half)
    ≡ escape_envoy_format_literals half
escape_idempotent_example = escape_idempotent half

escape-without_percent_example :
    without_percent (escape_envoy_format_literals half) ≡ without_percent half
escape-without_percent_example = escape-without_percent half

assert_sound_example :
    (p : Bytes) × (r : Bytes) × (half ≡ p ++ (percent ∷ r))
    × (1 ≡ length p)
    × IsSafe p
    × IsBare (percent ∷ r)
unfolding match_allowed_command
assert_sound_example = assert_sound half 1 (unfold assert_envoy_format_safe in refl)

assert-eq-none_iff_example : (assert_envoy_format_safe doubled ≡ none) ↔ IsSafe doubled
assert-eq-none_iff_example = assert-eq-none_iff doubled

validate_local_reply_lem_example : validate_local_reply_config codec page ≡ none
validate_local_reply_lem_example = validate_local_reply_lem codec page
