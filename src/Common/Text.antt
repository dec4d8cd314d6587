-- ===== src/Common/Text.antt =====
-- Text as bytes, and the parts of Go's `strings` that the program uses on them.
use Prim.Native.Char.{code}
use Prim.Native.Nat.{ℕ}
use Prim.Native.String.{String}
use mathlib.Core.Bool.{Bool, true, false, ◌&&◌}
use mathlib.Core.Path.{◌≡◌, refl}
use mathlib.Core.List.{List, [], ◌∷◌, ◌++◌}
use network_services_operato.Common.Tests.{if◌then◌else◌, ltb, ◌==◌, nat_eq, nat_beq_iff, and_split}

abbrev pub Bytes : Type 0
Bytes = List ℕ

-- The bytes of an ASCII literal.
abbrev pub codes : String → Bytes
codes String.[] = []
codes (String.◌∷◌ c s) = code c ∷ codes s

-- strings.HasPrefix
abbrev pub has_prefix : Bytes → Bytes → Bool
has_prefix s [] = true
has_prefix [] (p ∷ ps) = false
has_prefix (c ∷ s) (p ∷ ps) = (c == p) && has_prefix s ps

-- A prefix splits the text.
pub has_prefix-split : (s p : Bytes) → has_prefix s p ≡ true → (r : Bytes) × (s ≡ p ++ r)
has_prefix-split s [] h = (s, refl)
has_prefix-split [] (q ∷ p) h = cc
has_prefix-split (c ∷ s) (q ∷ p) h =
    let (same, more) = and_split (c == q) (has_prefix s p) h in
    let (r, e) = has_prefix-split s p more in (r, cc ((nat_beq_iff c q).0 same))

abbrev pub bytes_beq : Bytes → Bytes → Bool
bytes_beq [] [] = true
bytes_beq (a ∷ s) (b ∷ t) = (a == b) && bytes_beq s t
bytes_beq _ _ = false

-- Go's order on strings: byte by byte, a prefix first. On code points it is the same order.
abbrev pub bytes_leb : Bytes → Bytes → Bool
bytes_leb [] t = true
bytes_leb (a ∷ s) [] = false
bytes_leb (a ∷ s) (b ∷ t) = let rest = bytes_leb s t in if a == b then rest else ltb a b
