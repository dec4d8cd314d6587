-- ===== src/Registry/CacheSafe.antt =====
-- What a reader of the cache can see (internal/registrydata/cache_memory.go).
use network_services_operato.Common.{
  ℕ, zero, suc, ◌+◌, ◌≡◌, ◌≤◌, refl, sym, ap, ◌∙◌, subst, String, true, ltb, Option, none, some,
  ◌==◌, string_eq, str_eq_iff, if◌then◌else◌, arith, Option-cases, Bool-cases, inl, inr,
}
use network_services_operato.Common.Int.{ℤ, pos, negsuc}
use network_services_operato.Common.Map.{lookup, insert, erase, lookup-insert, lookup-erase}
use network_services_operato.Common.Text.{Bytes}
use network_services_operato.Registry.Cache.{
  Json, MemEntry, MemoryCache, is_expired, evict, expiry, get, set,
}

module _ {A : Type 0} (json : Json A) where
  -- What a look-up gives that finds this entry.
  abbrev pub live : ℕ → Option MemEntry → Option A
  live now none = none
  live now (some e) = if is_expired now e then none else json.unmarshal e.b

  get-live :
      (now later : ℕ) (key : String) (m : MemoryCache)
      → (get json now later key m).1 ≡ live now (lookup key m)
  unfolding get
  get-live now later key m = elim (Option-cases (lookup key m)) [
    | inl absent ↦ ground arith
    | inr (e, found) ↦ ground arith
  ]

  -- What a reader at time `t` finds of a value that was stored at time `now`: the value if the time to
  -- live is not positive, and otherwise up to `now + ttl`.
  abbrev pub kept_value : (now : ℕ) → ℤ → (t : ℕ) → A → Option A
  kept_value now (pos zero) t value = some value
  kept_value now (pos (suc n)) t value = if ltb (now + suc n) t then none else some value
  kept_value now (negsuc n) t value = some value

  live-stored :
      (now t : ℕ) (ttl : ℤ) (value : A) (b : Bytes)
      → json.marshal value ≡ some b
      → live t (some (record { b = b; expires_at = expiry now ttl })) ≡ kept_value now ttl t value
  live-stored now t (pos zero) value b encoded = json.unmarshal-marshal value b encoded
  live-stored now t (negsuc n) value b encoded = json.unmarshal-marshal value b encoded
  live-stored now t (pos (suc n)) value b encoded =
      ap (λ o. if ltb (now + suc n) t then none else o) (json.unmarshal-marshal value b encoded)

  -- A value that was stored is found for ever if its time to live is not positive, and otherwise by
  -- every reader up to the time at which it was stored plus the time to live, and by none after; what
  -- is found under any other key is what was found before.
  pub get-set :
      (now : ℕ) (key : String) (value : A) (ttl : ℤ) (m m' : MemoryCache) (t u : ℕ) (k : String)
      → set json now key value ttl m ≡ some m'
      → (get json t u k m').1
        ≡ (if key == k then kept_value now ttl t value else (get json t u k m).1)
  unfolding set
  get-set now key value ttl m m' t u k e = elim (Option-cases (json.marshal value)) [
    | inl failed ↦ absurd (ground arith)
    | inr (b, encoded) ↦
        let stored : MemEntry = record { b = b; expires_at = expiry now ttl } in
        let is_new : m' ≡ insert key stored m = ground arith in
        get-live t u k m'
        ∙ ap (λ n. live t (lookup k n)) is_new
        ∙ ap (live t) (lookup-insert key k stored m)
        ∙ elim (Bool-cases (key == k)) [
          | inr another ↦ rw another (sym (get-live t u k m))
          | inl same_key ↦ rw same_key (live-stored now t ttl value b encoded)
        ]
  ]

  is_expired-later :
      (now t : ℕ) (e : MemEntry) → now ≤ t → is_expired now e ≡ true → is_expired t e ≡ true
  is_expired-later now t e le h = elim (Option-cases e.expires_at) [
    | inl for_ever ↦ absurd (ground arith)
    | inr (end, until) ↦ ground arith
  ]

  -- Erasing an entry that gives nothing changes nothing that is found.
  live-erase :
      (t : ℕ) (key k : String) (m : MemoryCache) (e : MemEntry)
      → lookup key m ≡ some e
      → live t (some e) ≡ none
      → live t (lookup k (erase key m)) ≡ live t (lookup k m)
  live-erase t key k m e found dead = elim (Bool-cases (key == k)) [
    | inr another ↦
        let gone : lookup k (erase key m) ≡ lookup k m = ground (arith, lookup-erase key k m) in
        ap (live t) gone
    | inl same_key ↦
        let gone : lookup k (erase key m) ≡ none = ground (arith, lookup-erase key k m) in
        let here : lookup k m ≡ some e =
          subst (λ j. lookup j m ≡ some e) ((str_eq_iff key k).0 same_key) found in
        ap (live t) gone ∙ sym (ap (live t) here ∙ dead)
  ]

  live-get :
      (now later : ℕ) (key : String) (m : MemoryCache) (t : ℕ) (k : String)
      → now ≤ later
      → later ≤ t
      → live t (lookup k (get json now later key m).0) ≡ live t (lookup k m)
  unfolding get evict
  live-get now later key m t k h1 h2 = elim (Option-cases (lookup key m)) [
    | inl absent ↦ to m (ground arith) refl
    | inr (e, found) ↦ elim (Bool-cases (is_expired now e)) [
      | inl old ↦
          let dead : live t (some e) ≡ none =
            rw (is_expired-later now t e (omega arith) old) refl in
          let still : is_expired later e ≡ true = is_expired-later now later e h1 old in
          to (erase key m) (ground arith) (live-erase t key k m e found dead)
      | inr fresh ↦ elim (Option-cases (json.unmarshal e.b)) [
        | inr (v, decoded) ↦ to m (ground arith) refl
        | inl broken ↦
            let dead : live t (some e) ≡ none = ground arith in
            to (erase key m) (ground arith) (live-erase t key k m e found dead)
      ]
    ]
  ]
    where
      to :
          (n : MemoryCache)
          → (get json now later key m).0 ≡ n
          → live t (lookup k n) ≡ live t (lookup k m)
          → live t (lookup k (get json now later key m).0) ≡ live t (lookup k m)
      to n e h = ap (λ i. live t (lookup k i)) e ∙ h

  -- Reading is invisible to later readers: whatever a call of `get` evicts, every later call finds
  -- under every key what it would have found without that call.
  pub get-get :
      (now later : ℕ) (key : String) (m : MemoryCache) (t u : ℕ) (k : String)
      → now ≤ later
      → later ≤ t
      → (get json t u k (get json now later key m).0).1 ≡ (get json t u k m).1
  get-get now later key m t u k h1 h2 =
      get-live t u k (get json now later key m).0
      ∙ live-get now later key m t k h1 h2
      ∙ sym (get-live t u k m)
