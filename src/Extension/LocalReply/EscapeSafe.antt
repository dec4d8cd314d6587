-- ===== src/Extension/LocalReply/EscapeSafe.antt =====
-- What the escaper makes of a body (internal/extensionserver/mutate/localreply.go).
use network_services_operato.Common.{
  ℕ, zero, suc, ◌≤◌, ◌<◌, ◌≡◌, refl, ◌≢◌, false, [], ◌∷◌, ◌++◌, ◌==◌, nat_eq, if◌then◌else◌, length,
  arith,
}
use network_services_operato.Common.Text.{Bytes}
use network_services_operato.Extension.LocalReply.Escape.{
  percent, match_allowed_command, percent_next, escape_from, escape_envoy_format_literals,
}
use network_services_operato.Extension.LocalReply.Percent.{
  IsCommand, start_time, details, response_code, IsSafe, nil, plain, escaped, command, View, done,
  bare, view, length-command,
}

escape_from-plain :
    (f : ℕ) {c : ℕ} (s : Bytes) → c ≢ percent → escape_from (suc f) (c ∷ s) ≡ c ∷ escape_from f s
unfolding escape_from
escape_from-plain f s p = ground arith

escape_from-command :
    (f : ℕ) {cmd : Bytes} (s : Bytes)
    → IsCommand cmd
    → escape_from (suc f) (cmd ++ s) ≡ cmd ++ escape_from f s
unfolding escape_from match_allowed_command
escape_from-command f s start_time = refl
escape_from-command f s details = refl
escape_from-command f s response_code = refl

escape_from-bare :
    (f : ℕ) (s : Bytes)
    → percent_next s ≡ false
    → match_allowed_command (percent ∷ s) ≡ []
    → escape_from (suc f) (percent ∷ s) ≡ percent ∷ percent ∷ escape_from f s
unfolding escape_from
escape_from-bare f s h k = rw (h, k, escape_from)

escape_step :
    (f : ℕ) (s : Bytes)
    → View s
    → ((r : Bytes) → length r < length s → IsSafe (escape_from f r))
    → IsSafe (escape_from (suc f) s)
unfolding escape_from
escape_step f s done ih = nil
escape_step f s (plain {s = r} p) ih = rw (escape_from-plain f r p) (plain p (ih r (omega arith)))
escape_step f s (escaped {s = r}) ih = escaped (ih r (omega arith))
escape_step f s (command r k) ih =
    rw (escape_from-command f r k) (command k (ih r (length-command r k)))
escape_step f s (bare {s = r} h k) ih = rw (escape_from-bare f r h k) (escaped (ih r (omega arith)))

-- With enough fuel the escaped text is safe.
escape_from-IsSafe : (f : ℕ) (s : Bytes) → length s ≤ f → IsSafe (escape_from f s)
unfolding escape_from
escape_from-IsSafe zero s h = nil
escape_from-IsSafe (suc f) s h =
    escape_step f s (view s) (λ r lt. escape_from-IsSafe f r (omega arith))

-- A safe text is left as it is.
escape_from-of_IsSafe : (f : ℕ) (s : Bytes) → IsSafe s → length s ≤ f → escape_from f s ≡ s
unfolding escape_from
escape_from-of_IsSafe zero [] i h = refl
escape_from-of_IsSafe zero (c ∷ s) i h = absurd (omega arith)
escape_from-of_IsSafe (suc f) s nil h = refl
escape_from-of_IsSafe (suc f) s (plain {s = r} p i) h =
    rw (escape_from-plain f r p, escape_from-of_IsSafe f r i (omega arith))
escape_from-of_IsSafe (suc f) s (escaped {s = r} i) h =
    rw (escape_from-of_IsSafe f r i (omega arith))
escape_from-of_IsSafe (suc f) s (command {s = r} k i) h =
    rw (escape_from-command f r k, escape_from-of_IsSafe f r i (omega (arith, length-command r k)))

-- Whatever the body, in the escaped text every percent sign belongs to `%%` or to one of the
-- allowed commands.
pub escape-IsSafe : (s : Bytes) → IsSafe (escape_envoy_format_literals s)
unfolding escape_envoy_format_literals
escape-IsSafe s = escape_from-IsSafe (length s) s (omega arith)

-- A safe body is not changed by the escaper.
pub escape-of_IsSafe : (s : Bytes) → IsSafe s → escape_envoy_format_literals s ≡ s
unfolding escape_envoy_format_literals
escape-of_IsSafe s i = escape_from-of_IsSafe (length s) s i (omega arith)

-- Escaping twice is escaping once.
pub escape_idempotent :
    (s : Bytes)
    → escape_envoy_format_literals (escape_envoy_format_literals s) ≡ escape_envoy_format_literals s
escape_idempotent s = escape-of_IsSafe _ (escape-IsSafe s)

-- The bytes of a text other than the percent signs, in their order.
pub without_percent : Bytes → Bytes
without_percent [] = []
without_percent (c ∷ s) = if c == percent then without_percent s else c ∷ without_percent s

without_percent-append :
    (s t : Bytes) → without_percent (s ++ t) ≡ without_percent s ++ without_percent t
unfolding without_percent
without_percent-append [] t = refl
without_percent-append (c ∷ s) t = ground (arith, without_percent-append s t)

text_step :
    (f : ℕ) (s : Bytes)
    → View s
    → ((r : Bytes) → length r < length s → without_percent (escape_from f r) ≡ without_percent r)
    → without_percent (escape_from (suc f) s) ≡ without_percent s
unfolding without_percent
text_step f s done ih = unfold escape_from in refl
text_step f s (plain {s = r} p) ih =
    rw (escape_from-plain f r p) (ground (arith, ih r (omega arith)))
text_step f s (escaped {s = r}) ih = unfold escape_from in ih r (omega arith)
text_step f s (command {cmd} r k) ih =
    rw (escape_from-command f r k) (simp (without_percent-append, ih r (length-command r k)))
text_step f s (bare {s = r} h k) ih = rw (escape_from-bare f r h k) (ih r (omega arith))

escape_from-text :
    (f : ℕ) (s : Bytes) → length s ≤ f → without_percent (escape_from f s) ≡ without_percent s
unfolding escape_from
escape_from-text zero [] h = refl
escape_from-text zero (c ∷ s) h = absurd (omega arith)
escape_from-text (suc f) s h = text_step f s (view s) (λ r lt. escape_from-text f r (omega arith))

-- The escaper adds percent signs only: every other byte of the body stands in the escaped text, in
-- the same order, and no other byte does.
pub escape-without_percent :
    (s : Bytes) → without_percent (escape_envoy_format_literals s) ≡ without_percent s
unfolding escape_envoy_format_literals
escape-without_percent s = escape_from-text (length s) s (omega arith)
