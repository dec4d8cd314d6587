-- ===== src/Extension/LocalReply/AssertSafe.antt =====
-- What the check of a body says (internal/extensionserver/mutate/localreply.go).
use network_services_operato.Common.{
  ℕ, zero, suc, ◌+◌, ◌≤◌, ◌<◌, ◌≡◌, refl, ◌≢◌, ◌↔◌, false, Option, none, some, [], ◌∷◌, ◌++◌,
  length, arith, subst, sym, ◌∙◌, ap, append_assoc, length-append, nat_beq_iff,
}
use network_services_operato.Common.Text.{Bytes}
use network_services_operato.Extension.LocalReply.Escape.{
  percent, match_allowed_command, percent_next, assert_from, assert_envoy_format_safe,
  escape_envoy_format_literals,
}
use network_services_operato.Extension.LocalReply.EscapeSafe.{escape-IsSafe}
use network_services_operato.Extension.LocalReply.Percent.{
  IsCommand, start_time, details, response_code, IsSafe, nil, plain, escaped, command, View, done,
  bare, view, length-command,
}

assert_from-plain :
    (f i : ℕ) {c : ℕ} (s : Bytes)
    → c ≢ percent
    → assert_from (suc f) i (c ∷ s) ≡ assert_from f (i + 1) s
unfolding assert_from
assert_from-plain f i s p = ground arith

assert_from-command :
    (f i : ℕ) {cmd : Bytes} (s : Bytes)
    → IsCommand cmd
    → assert_from (suc f) i (cmd ++ s) ≡ assert_from f (i + length cmd) s
unfolding assert_from match_allowed_command
assert_from-command f i s start_time = refl
assert_from-command f i s details = refl
assert_from-command f i s response_code = refl

assert_from-bare :
    (f i : ℕ) (s : Bytes)
    → percent_next s ≡ false
    → match_allowed_command (percent ∷ s) ≡ []
    → assert_from (suc f) i (percent ∷ s) ≡ some i
unfolding assert_from
assert_from-bare f i s h k = rw (h, k, assert_from)

-- The text begins neither with two percent signs nor with an allowed command.
abbrev pub IsBare : Bytes → Type 0
IsBare s =
    ((t : Bytes) → s ≢ percent ∷ percent ∷ t) × ((cmd t : Bytes) → IsCommand cmd → s ≢ cmd ++ t)

-- What the result of the check from offset `i` on says of the text that is left.
abbrev pub Verdict : ℕ → Bytes → Option ℕ → Type 0
Verdict i s none = IsSafe s
Verdict i s (some j) =
    (p : Bytes) × (r : Bytes) × (s ≡ p ++ (percent ∷ r))
    × (j ≡ i + length p)
    × IsSafe p
    × IsBare (percent ∷ r)

Verdict-append :
    (i : ℕ) (p s : Bytes) (o : Option ℕ)
    → ((t : Bytes) → IsSafe t → IsSafe (p ++ t))
    → Verdict (i + length p) s o
    → Verdict i (p ++ s) o
Verdict-append i p s none keep v = keep s v
Verdict-append i p s (some j) keep (q, r, split, at, safe, is_bare) = (
  p ++ q,
  r,
  ap (λ t. p ++ t) split ∙ sym (append_assoc p q (percent ∷ r)),
  (let l = length-append p q in omega arith),
  keep q safe,
  is_bare,
)

not_doubled :
    (s : Bytes) → percent_next s ≡ false → (t : Bytes) → percent ∷ s ≢ percent ∷ percent ∷ t
not_doubled [] h t e = absurd (cc)
not_doubled (d ∷ s) h t e = let same : d ≡ percent = cc in ground (arith, nat_beq_iff d percent)

not_command :
    (s : Bytes) → match_allowed_command s ≡ [] → (cmd t : Bytes) → IsCommand cmd → s ≢ cmd ++ t
unfolding match_allowed_command
not_command s h cmd t start_time e =
    absurd (let u = subst (λ x. match_allowed_command x ≡ []) e h in cc)
not_command s h cmd t details e =
    absurd (let u = subst (λ x. match_allowed_command x ≡ []) e h in cc)
not_command s h cmd t response_code e =
    absurd (let u = subst (λ x. match_allowed_command x ≡ []) e h in cc)

assert_step :
    (f i : ℕ) (s : Bytes)
    → View s
    → ((n : ℕ) (r : Bytes) → length r < length s → Verdict n r (assert_from f n r))
    → Verdict i s (assert_from (suc f) i s)
assert_step f i s done ih = unfold assert_from in nil
assert_step f i s (plain {c} {s = r} p) ih =
    rw (assert_from-plain f i r p)
      (Verdict-append i (c ∷ []) r _ (λ t. plain p) (ih (i + 1) r (omega arith)))
assert_step f i s (escaped {s = r}) ih =
    unfold assert_from in
    Verdict-append i (percent ∷ percent ∷ []) r _ (λ t. escaped) (ih (i + 2) r (omega arith))
assert_step f i s (command {cmd} r k) ih =
    rw (assert_from-command f i r k)
      (Verdict-append i cmd r _ (λ t. command k) (ih (i + length cmd) r (length-command r k)))
assert_step f i s (bare {s = r} h k) ih =
    rw (assert_from-bare f i r h k)
      ([], r, refl, omega arith, nil, (not_doubled r h, not_command (percent ∷ r) k))

assert_from-Verdict : (f i : ℕ) (s : Bytes) → length s ≤ f → Verdict i s (assert_from f i s)
assert_from-Verdict zero i [] h = unfold assert_from in nil
assert_from-Verdict zero i (c ∷ s) h = absurd (omega arith)
assert_from-Verdict (suc f) i s h =
    assert_step f i s (view s) (λ n r lt. assert_from-Verdict f n r (omega arith))

assert_envoy_format_safe-Verdict : (s : Bytes) → Verdict 0 s (assert_envoy_format_safe s)
unfolding assert_envoy_format_safe
assert_envoy_format_safe-Verdict s = assert_from-Verdict (length s) 0 s (omega arith)

-- If the check reports an offset, the text splits there: the part before it is as long as the offset
-- and safe, and the rest begins with a percent sign that starts neither `%%` nor an allowed command.
pub assert_sound :
    (s : Bytes) (i : ℕ)
    → assert_envoy_format_safe s ≡ some i
    → (p : Bytes) × (r : Bytes) × (s ≡ p ++ (percent ∷ r))
      × (i ≡ length p)
      × IsSafe p
      × IsBare (percent ∷ r)
assert_sound s i e =
    let (p, r, split, at, safe, is_bare) =
      subst (Verdict 0 s) e (assert_envoy_format_safe-Verdict s) in
    (p, r, split, omega arith, safe, is_bare)

assert_from-of_IsSafe : (f i : ℕ) (s : Bytes) → IsSafe s → assert_from f i s ≡ none
unfolding assert_from
assert_from-of_IsSafe zero i s h = refl
assert_from-of_IsSafe (suc f) i s nil = refl
assert_from-of_IsSafe (suc f) i s (plain {s = r} p h) =
    rw (assert_from-plain f i r p) (assert_from-of_IsSafe f (i + 1) r h)
assert_from-of_IsSafe (suc f) i s (escaped {s = r} h) = assert_from-of_IsSafe f (i + 2) r h
assert_from-of_IsSafe (suc f) i s (command {cmd} {s = r} k h) =
    rw (assert_from-command f i r k) (assert_from-of_IsSafe f (i + length cmd) r h)

-- The check reports no error exactly on the safe texts.
pub assert-eq-none_iff : (s : Bytes) → (assert_envoy_format_safe s ≡ none) ↔ IsSafe s
assert-eq-none_iff s = (
  λ e. subst (Verdict 0 s) e (assert_envoy_format_safe-Verdict s),
  λ h. unfold assert_envoy_format_safe in assert_from-of_IsSafe (length s) 0 s h,
)

-- The check passes whatever the escaper returns.
pub assert-escape : (s : Bytes) → assert_envoy_format_safe (escape_envoy_format_literals s) ≡ none
assert-escape s = (assert-eq-none_iff _).1 (escape-IsSafe s)
