-- ===== src/Tests/Cache.antt =====
-- Runs of the cache in memory (internal/registrydata/cache_memory.go).
use network_services_operato.Common.{◌≡◌, refl, sym, [], ◌∷◌, none, some, arith}
use network_services_operato.Common.Int.{pos}
use network_services_operato.Common.Map.{lookup, insert, erase}
use network_services_operato.Common.Text.{Bytes}
use network_services_operato.Registry.Cache.{Json, MemoryCache, get, set}
use network_services_operato.Registry.CacheSafe.{get-set, get-get}

plain-json : (v b : Bytes) → some v ≡ some b → some b ≡ some v
plain-json v b e = sym e

abbrev json : Json Bytes
json = record { marshal = λ v. some v; unmarshal = λ b. some b; unmarshal-marshal = plain-json }

-- "a" expires at time 15, "b" never does.
abbrev entries : MemoryCache
entries =
    ("a", record { b = 7 ∷ []; expires_at = some 15 })
    ∷ ("b", record { b = 8 ∷ []; expires_at = none })
    ∷ []

abbrev stored : MemoryCache
stored =
    ("a", record { b = 9 ∷ []; expires_at = some 30 })
    ∷ ("b", record { b = 8 ∷ []; expires_at = none })
    ∷ []

set_run : set json 20 "a" (9 ∷ []) (pos 10) entries ≡ some stored
unfolding set insert
set_run = refl

get-set_example : (get json 25 25 "a" stored).1 ≡ some (9 ∷ [])
get-set_example = get-set json 20 "a" (9 ∷ []) (pos 10) entries stored 25 25 "a" set_run

-- At time 20 the entry "a" is evicted.
evict_run : (get json 20 20 "a" entries).0 ≡ ("b", record { b = 8 ∷ []; expires_at = none }) ∷ []
unfolding get lookup erase
evict_run = refl

get-get_example :
    (get json 21 21 "a" (get json 20 20 "a" entries).0).1 ≡ (get json 21 21 "a" entries).1
get-get_example = get-get json 20 20 "a" entries 21 21 "a" (omega arith) (omega arith)
