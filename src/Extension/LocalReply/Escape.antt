-- ===== src/Extension/LocalReply/Escape.antt =====
-- The escaping of an error page's body for Envoy's format strings, and the check of the result
-- (internal/extensionserver/mutate/localreply.go).
use network_services_operato.Common.{
  ℕ, zero, suc, ◌+◌, Bool, true, false, List, [], ◌∷◌, ◌++◌, Option, none, some, ◌==◌, length, drop,
  nat_eq, if◌then◌else◌,
}
use network_services_operato.Common.Text.{Bytes, codes, has_prefix}

abbrev pub percent : ℕ
percent = b'%'

abbrev pub start_time_command : Bytes
start_time_command = codes "%START_TIME(%Y-%m-%d %H:%M:%S UTC)%"

abbrev pub details_command : Bytes
details_command = codes "%RESPONSE_CODE_DETAILS%"

abbrev pub code_command : Bytes
code_command = codes "%RESPONSE_CODE%"

abbrev pub envoy_body_allowed_commands : List Bytes
envoy_body_allowed_commands = start_time_command ∷ details_command ∷ code_command ∷ []

-- The loop over the allowed commands; `[]` is Go's "".
abbrev pub first_prefix : List Bytes → Bytes → Bytes
first_prefix [] s = []
first_prefix (cmd ∷ cmds) s = if has_prefix s cmd then cmd else first_prefix cmds s

unfoldable pub match_allowed_command : Bytes → Bytes
match_allowed_command s = first_prefix envoy_body_allowed_commands s

-- s[i+1] == '%'
abbrev pub percent_next : Bytes → Bool
percent_next [] = false
percent_next (d ∷ s) = d == percent

-- The loop of the escaper from an index on: the argument is what is left of the text. Each round
-- uses up a byte at least, so the length of the text is enough fuel.
unfoldable pub escape_from : ℕ → Bytes → Bytes
escape_from zero s = []
escape_from (suc fuel) [] = []
escape_from (suc fuel) (c ∷ s) = elim (c == percent) [
  | false ↦ c ∷ escape_from fuel s
  | true ↦ elim (percent_next s) [
    | true ↦ percent ∷ percent ∷ escape_from fuel (drop 1 s)
    | false ↦ elim (match_allowed_command (c ∷ s)) [
      | [] ↦ percent ∷ percent ∷ escape_from fuel s
      | d ∷ cmd ↦ (d ∷ cmd) ++ escape_from fuel (drop (length cmd) s)
    ]
  ]
]

unfoldable pub escape_envoy_format_literals : Bytes → Bytes
unfolding escape_from
escape_envoy_format_literals s = escape_from (length s) s

-- The loop of the check; `some i` is the error "bare % at byte offset i".
unfoldable pub assert_from : ℕ → ℕ → Bytes → Option ℕ
assert_from zero i s = none
assert_from (suc fuel) i [] = none
assert_from (suc fuel) i (c ∷ s) = elim (c == percent) [
  | false ↦ assert_from fuel (i + 1) s
  | true ↦ elim (percent_next s) [
    | true ↦ assert_from fuel (i + 2) (drop 1 s)
    | false ↦ elim (match_allowed_command (c ∷ s)) [
      | [] ↦ some i
      | d ∷ cmd ↦ assert_from fuel (i + suc (length cmd)) (drop (length cmd) s)
    ]
  ]
]

unfoldable pub assert_envoy_format_safe : Bytes → Option ℕ
unfolding assert_from
assert_envoy_format_safe s = assert_from (length s) 0 s
