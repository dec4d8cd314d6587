-- ===== src/Tests/Names.antt =====
-- The helpers on names at work (internal/util/resourcename, internal/util/dns).
use network_services_operato.Common.{
  ℕ, zero, suc, ◌≡◌, ◌<◌, ◌≤◌, ◌⊎◌, refl, true, ◌==◌, if◌then◌else◌, string_eq, some, [], ◌∷◌,
  length, arith,
}
use network_services_operato.Common.Text.{Bytes}
use network_services_operato.Common.Member.{differs_iff}
use network_services_operato.Util.ResourceName.{
  optional_truncate_and_hash, optional_truncate_and_hash-IsWithin,
}
use network_services_operato.Util.Nameserver.{
  Strings, Zone, has_nameserver_overlap, has_nameserver_overlap_iff,
}

abbrev repeated : ℕ → ℕ → Bytes
repeated zero c = []
repeated (suc n) c = c ∷ repeated n c

-- A hash of 32 zeros for every text.
abbrev zeros : Bytes → Bytes
zeros name = repeated 32 b'0'

abbrev long_name : ℕ → Bytes
long_name c = repeated 70 c

made_name :
    (made : Bytes) × (optional_truncate_and_hash zeros (long_name b'a') 63 ≡ some made)
    × (length made ≡ 63)
unfolding optional_truncate_and_hash
made_name = (_, refl, refl)

optional_truncate_and_hash-IsWithin_example :
    (made : Bytes) × (optional_truncate_and_hash zeros (long_name b'a') 63 ≡ some made)
    × (((length (long_name b'a') ≤ 63) × (made ≡ long_name b'a'))
        ⊎ ((63 < length (long_name b'a')) × (length made ≡ 63)))
optional_truncate_and_hash-IsWithin_example =
    optional_truncate_and_hash-IsWithin zeros (long_name b'a') 63 refl (omega arith)

-- Names are compared without their last dot.
abbrev sample_strings : Strings
sample_strings = record {
  trim_space = λ s. s;
  trim_suffix = λ s suffix. if s == "ns1.example.net." then "ns1.example.net" else s;
  to_lower = λ s. s;
}

abbrev sample_zone : Zone
sample_zone = record {
  is_condition_true = λ type. true;
  nameservers = "ns0.example.net" ∷ "ns1.example.net" ∷ [];
}

dots_do_not_matter :
    has_nameserver_overlap sample_strings ("ns1.example.net." ∷ []) ("ns1.example.net" ∷ []) ≡ true
unfolding network_services_operato.Util.Nameserver.normalize_nameserver
dots_do_not_matter =
    (has_nameserver_overlap_iff sample_strings ("ns1.example.net." ∷ []) ("ns1.example.net" ∷ [])).1
      (
        "ns1.example.net",
        ((differs_iff "ns1.example.net" "").0 refl, "ns1.example.net.", (0, refl), refl),
        ((differs_iff "ns1.example.net" "").0 refl, "ns1.example.net", (0, refl), refl),
      )
