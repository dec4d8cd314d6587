-- ===== src/Extension/LocalReply/Percent.antt =====
-- The percent signs of a text, as the loops of localreply.go find them
-- (internal/extensionserver/mutate/localreply.go).
use network_services_operato.Common.{
  ℕ, ◌≡◌, ◌≢◌, ◌⊎◌, inl, inr, subst, sym, nat_beq_iff, true, false, [], ◌∷◌, ◌++◌, ◌==◌, nat_eq,
  arith, Bool-cases, length, ◌<◌,
}
use network_services_operato.Common.Text.{Bytes, has_prefix, has_prefix-split}
use network_services_operato.Extension.LocalReply.Escape.{
  percent, start_time_command, details_command, code_command, match_allowed_command, percent_next,
}

-- The three commands that may stand in a body.
pub data IsCommand : Bytes → Type 0 where
  start_time : IsCommand start_time_command
  details : IsCommand details_command
  response_code : IsCommand code_command

-- A text in which every percent sign belongs to `%%` or to an allowed command.
pub data IsSafe : Bytes → Type 0 where
  nil : IsSafe []
  plain : {c : ℕ} {s : Bytes} → c ≢ percent → IsSafe s → IsSafe (c ∷ s)
  escaped : {s : Bytes} → IsSafe s → IsSafe (percent ∷ percent ∷ s)
  command : {cmd s : Bytes} → IsCommand cmd → IsSafe s → IsSafe (cmd ++ s)

-- What the loops may find at the head of the text.
pub data View : Bytes → Type 0 where
  done : View []
  plain : {c : ℕ} {s : Bytes} → c ≢ percent → View (c ∷ s)
  escaped : {s : Bytes} → View (percent ∷ percent ∷ s)
  command : {cmd : Bytes} (s : Bytes) → IsCommand cmd → View (cmd ++ s)
  bare :
      {s : Bytes}
      → percent_next s ≡ false
      → match_allowed_command (percent ∷ s) ≡ []
      → View (percent ∷ s)

command_view :
    {s cmd : Bytes}
    → IsCommand cmd
    → has_prefix s cmd ≡ true
    → (match_allowed_command s ≡ []) ⊎ View s
command_view {s} {cmd} k h =
    let (r, e) = has_prefix-split s cmd h in inr (subst View (sym e) (command r k))

-- The allowlist finds nothing, or the text begins with a command.
match_view : (s : Bytes) → (match_allowed_command s ≡ []) ⊎ View s
unfolding match_allowed_command
match_view s = elim (Bool-cases (has_prefix s start_time_command)) [
  | inl h ↦ command_view start_time h
  | inr no_time ↦ elim (Bool-cases (has_prefix s details_command)) [
    | inl h ↦ command_view details h
    | inr no_details ↦ elim (Bool-cases (has_prefix s code_command)) [
      | inl h ↦ command_view response_code h
      | inr no_code ↦ inl (rw (no_time, no_details, no_code))
    ]
  ]
]

percent_view : (s : Bytes) → View (percent ∷ s)
percent_view s = elim (Bool-cases (percent_next s)) [
  | inl h ↦ next_view s h
  | inr h ↦ elim (match_view (percent ∷ s)) [ inl none_fits ↦ bare h none_fits | inr v ↦ v ]
]
  where
    next_view : (t : Bytes) → percent_next t ≡ true → View (percent ∷ t)
    next_view [] e = cc
    next_view (d ∷ t) e =
        subst (λ x. View (percent ∷ x ∷ t)) (sym ((nat_beq_iff d percent).0 e)) escaped

pub view : (s : Bytes) → View s
view [] = done
view (c ∷ s) = elim (Bool-cases (c == percent)) [
  | inl h ↦ subst (λ x. View (x ∷ s)) (sym ((nat_beq_iff c percent).0 h)) (percent_view s)
  | inr h ↦ plain (λ e. ground arith)
]

pub length-command : {cmd : Bytes} (s : Bytes) → IsCommand cmd → length s < length (cmd ++ s)
length-command s start_time = omega arith
length-command s details = omega arith
length-command s response_code = omega arith
