-- ===== src/Registry/Cache.antt =====
-- The cache in memory (internal/registrydata/cache_memory.go). Encoding values is encoding/json, a
-- parameter; times are numbers and the zero time is `none`. A call of `get` reads the clock once, and a
-- second time before it evicts; it runs without another call in between.
use network_services_operato.Common.{
  ℕ, zero, suc, ◌+◌, ◌≡◌, String, Bool, false, ltb, List, Option, none, some, string_eq,
  if◌then◌else◌,
}
use network_services_operato.Common.Int.{ℤ, pos, negsuc}
use network_services_operato.Common.Map.{lookup, insert, erase}
use network_services_operato.Common.Text.{Bytes}

-- json.Marshal and json.Unmarshal at a type of values; `none` is an error.
pub record Json (A : Type 0) : Type 0 where
  pub marshal : A → Option Bytes
  pub unmarshal : Bytes → Option A
  pub unmarshal-marshal : (v : A) (b : Bytes) → marshal v ≡ some b → unmarshal b ≡ some v

pub record MemEntry : Type 0 where
  pub b : Bytes
  pub expires_at : Option ℕ

abbrev pub MemoryCache : Type 0
MemoryCache = List (String × MemEntry)

abbrev pub is_expired : ℕ → MemEntry → Bool
is_expired now e = elim e.expires_at [ none ↦ false | some t ↦ ltb t now ]

-- The eviction looks the entry up again, and reads the clock again.
unfoldable pub evict : ℕ → String → MemoryCache → MemoryCache
evict now key m = elim (lookup key m) [
  | none ↦ m
  | some e ↦ if is_expired now e then erase key m else m
]

abbrev pub expiry : ℕ → ℤ → Option ℕ
expiry now (pos zero) = none
expiry now (pos (suc n)) = some (now + suc n)
expiry now (negsuc n) = none

module _ {A : Type 0} (json : Json A) where
  -- The new entries, and the value that is found; `none` is a miss.
  unfoldable pub get : (now later : ℕ) → String → MemoryCache → MemoryCache × Option A
  unfolding evict
  get now later key m = elim (lookup key m) [
    | none ↦ (m, none)
    | some e ↦
        if is_expired now e
        then (evict later key m, none)
        else elim (json.unmarshal e.b) [ none ↦ (erase key m, none) | some v ↦ (m, some v) ]
  ]

  -- `none` is an error of the encoder.
  unfoldable pub set : ℕ → String → A → ℤ → MemoryCache → Option MemoryCache
  set now key value ttl m = elim (json.marshal value) [
    | none ↦ none
    | some b ↦ some (insert key (record { b = b; expires_at = expiry now ttl }) m)
  ]
