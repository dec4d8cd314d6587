-- ===== src/Extension/Programmed/Sorted.antt =====
-- What sortDedup returns (internal/extensionserver/server/programmedset_scan.go).
use network_services_operato.Common.{
  String, true, not, ◌&&◌, ◌||◌, ◌==◌, string_eq, ◌≡◌, ◌≢◌, refl, sym, List, [], ◌∷◌, All, Distinct,
  arith, str_eq_iff, ==_refl, Bool-cases, inl, inr,
}
use network_services_operato.Common.Text.{codes, bytes_leb}
use network_services_operato.Common.Member.{has, has-apart}
use network_services_operato.Extension.Index.Order.{bytes_leb_total, bytes_leb_trans}
use network_services_operato.Extension.Programmed.Scan.{
  insert_sorted, sort_strings, seen_before, dedup_from, sort_dedup, le_text,
}

insert_sorted-has :
    (s k : String) (ts : List String) → has (insert_sorted s ts) k ≡ (s == k) || has ts k
unfolding insert_sorted
insert_sorted-has s k [] = refl
insert_sorted-has s k (t ∷ ts) = ground (arith, insert_sorted-has s k ts)

sort_strings-has : (k : String) (ss : List String) → has (sort_strings ss) k ≡ has ss k
unfolding sort_strings
sort_strings-has k [] = refl
sort_strings-has k (s ∷ ss) =
    ground (arith, insert_sorted-has s k (sort_strings ss), sort_strings-has k ss)

dedup_from-has :
    (k : String) (seen ss : List String)
    → has (dedup_from seen ss) k ≡ has ss k && not (seen_before k seen)
unfolding dedup_from
dedup_from-has k seen [] = refl
dedup_from-has k seen (s ∷ ss) =
    ground (arith, str_eq_iff s k, dedup_from-has k seen ss, dedup_from-has k (s ∷ seen) ss)

-- The sorted list without duplicates holds the same texts.
pub sort_dedup-has : (k : String) (ss : List String) → has (sort_dedup ss) k ≡ has ss k
unfolding sort_dedup
sort_dedup-has k ss = ground (arith, sort_strings-has k (dedup_from [] ss), dedup_from-has k [] ss)

All-insert_sorted :
    (P : String → Type 0) (s : String) (ts : List String)
    → P s
    → All P ts
    → All P (insert_sorted s ts)
unfolding insert_sorted
All-insert_sorted P s [] p h = (p, h)
All-insert_sorted P s (t ∷ ts) p h = elim (Bool-cases (le_text s t)) [
  | inl before ↦ rw before (p, h)
  | inr after ↦ rw after (h.0, All-insert_sorted P s ts p h.1)
]

insert_sorted-Distinct :
    (s : String) (ts : List String)
    → All (λ t. s ≢ t) ts
    → Distinct ts
    → Distinct (insert_sorted s ts)
unfolding insert_sorted
insert_sorted-Distinct s [] new h = (new, h)
insert_sorted-Distinct s (t ∷ ts) new h = elim (Bool-cases (le_text s t)) [
  | inl before ↦ rw before (new, h)
  | inr after ↦ rw after (
    All-insert_sorted (λ u. t ≢ u) s ts (λ e. new.0 (sym e)) h.0,
    insert_sorted-Distinct s ts new.1 h.1,
  )
]

All-sort_strings : (P : String → Type 0) (ss : List String) → All P ss → All P (sort_strings ss)
unfolding sort_strings
All-sort_strings P [] h = tt
All-sort_strings P (s ∷ ss) h =
    All-insert_sorted P s (sort_strings ss) h.0 (All-sort_strings P ss h.1)

sort_strings-Distinct : (ss : List String) → Distinct ss → Distinct (sort_strings ss)
unfolding sort_strings
sort_strings-Distinct [] h = tt
sort_strings-Distinct (s ∷ ss) h =
    insert_sorted-Distinct s (sort_strings ss) (All-sort_strings (λ t. s ≢ t) ss h.0)
      (sort_strings-Distinct ss h.1)

dedup_from-Distinct : (seen ss : List String) → Distinct (dedup_from seen ss)
unfolding dedup_from
dedup_from-Distinct seen [] = tt
dedup_from-Distinct seen (s ∷ ss) = elim (Bool-cases (seen_before s seen)) [
  | inl old ↦ rw old (dedup_from-Distinct seen ss)
  | inr new ↦ rw new (
    has-apart s (dedup_from (s ∷ seen) ss)
        (ground (arith, ==_refl s, dedup_from-has s (s ∷ seen) ss)),
    dedup_from-Distinct (s ∷ seen) ss,
  )
]

-- Each text is no later than those after it, in the order of their bytes.
abbrev pub IsSorted : List String → Type 0
IsSorted [] = Unit
IsSorted (s ∷ ss) = All (λ t. bytes_leb (codes s) (codes t) ≡ true) ss × IsSorted ss

All-le_text :
    (s t : String) (ts : List String)
    → le_text s t ≡ true
    → All (λ u. bytes_leb (codes t) (codes u) ≡ true) ts
    → All (λ u. bytes_leb (codes s) (codes u) ≡ true) ts
All-le_text s t [] h k = tt
All-le_text s t (u ∷ us) h k =
    (bytes_leb_trans (codes s) (codes t) (codes u) h k.0, All-le_text s t us h k.1)

insert_sorted-IsSorted :
    (s : String) (ts : List String) → IsSorted ts → IsSorted (insert_sorted s ts)
unfolding insert_sorted
insert_sorted-IsSorted s [] h = (tt, tt)
insert_sorted-IsSorted s (t ∷ ts) h = elim (Bool-cases (le_text s t)) [
  | inl before ↦ rw before ((before, All-le_text s t ts before h.0), h)
  | inr after ↦ rw after (
    All-insert_sorted (λ u. bytes_leb (codes t) (codes u) ≡ true) s ts
        (bytes_leb_total (codes s) (codes t) after) h.0,
    insert_sorted-IsSorted s ts h.1,
  )
]

sort_strings-IsSorted : (ss : List String) → IsSorted (sort_strings ss)
unfolding sort_strings
sort_strings-IsSorted [] = tt
sort_strings-IsSorted (s ∷ ss) =
    insert_sorted-IsSorted s (sort_strings ss) (sort_strings-IsSorted ss)

-- The result is sorted, and no text stands in it twice.
pub sort_dedup-IsSorted : (ss : List String) → Distinct (sort_dedup ss) × IsSorted (sort_dedup ss)
unfolding sort_dedup
sort_dedup-IsSorted ss = (
  sort_strings-Distinct (dedup_from [] ss) (dedup_from-Distinct [] ss),
  sort_strings-IsSorted (dedup_from [] ss),
)
