-- ===== src/Registry/Limiter.antt =====
-- internal/registrydata/limiter_memory.go: a token bucket for each provider, with a time until which it
-- is blocked. A time is a number of nanoseconds, the zero time none.
use network_services_operato.Common.{
  ℕ, suc, ◌+◌, ◌-◌, String, Bool, true, false, ltb, ◌==◌, string_eq, if◌then◌else◌, Option, none,
  some, List, [], ◌∷◌,
}
use network_services_operato.Common.Int.{ℤ, pos}
use network_services_operato.Common.Map.{lookup, insert}

-- float64, as far as the limiter uses it; `seconds` is time.Duration.Seconds.
pub record Float64 : Type 1 where
  pub F : Type 0
  pub lt : F → F → Bool
  pub ge : F → F → Bool
  pub add : F → F → F
  pub sub : F → F → F
  pub mul : F → F → F
  pub one : F
  pub seconds : ℕ → F

module _ (R : Float64) where
  pub record RateLimits : Type 0 where
    pub rate_per_sec : R.F
    pub burst : R.F
    pub block : ℤ

  pub record Bucket : Type 0 where
    pub tokens : R.F
    pub last_refill : ℕ
    pub blocked_until : Option ℕ
    pub last_touched : Option ℕ

  -- newMemoryProviderLimiter's stateTTL is 30 minutes.
  abbrev pub state_ttl : ℕ
  state_ttl = 1800000000000

  abbrev pub Buckets : Type 0
  Buckets = List (String × Bucket)

  pub record Answer : Type 0 where
    pub granted : Bool
    pub wait : ℕ
    pub buckets : Buckets

  unfoldable pub min_f : R.F → R.F → R.F
  min_f a b = if R.lt a b then a else b

  -- The provider, "default" for the empty name.
  abbrev pub key_of : String → String
  key_of provider = if provider == "" then "default" else provider

  -- The provider's bucket, a full one if there is none, touched now.
  unfoldable pub bucket_at : RateLimits → ℕ → Option Bucket → Bucket
  bucket_at limits now none = record {
    tokens = limits.burst;
    last_refill = now;
    blocked_until = none;
    last_touched = some now;
  }
  bucket_at limits now (some b) = record b { last_touched = some now }

  unfoldable pub is_stale : ℕ → Bucket → Bool
  is_stale now b = elim b.last_touched [ none ↦ false | some t ↦ ltb state_ttl (now - t) ]

  -- The opportunistic clean-up.
  unfoldable pub sweep : ℕ → Buckets → Buckets
  sweep now [] = []
  sweep now ((k, b) ∷ bs) =
      let rest = sweep now bs in if is_stale now b then rest else (k, b) ∷ rest

  -- A clock that went back refills nothing.
  unfoldable pub refill : RateLimits → ℕ → Bucket → Bucket
  refill limits now b = record b {
    tokens =
        min_f limits.burst
          (R.add b.tokens (R.mul (R.seconds (now - b.last_refill)) limits.rate_per_sec));
    last_refill = now;
  }

  -- The configured block, two seconds if it is not positive.
  abbrev pub retry_after : ℤ → ℕ
  retry_after (pos (suc n)) = suc n
  retry_after _ = 2000000000

  unfoldable pub spend : RateLimits → ℕ → Bucket → Bool × ℕ × Bucket
  spend limits now b =
      if R.ge b.tokens R.one then (true, 0, record b { tokens = R.sub b.tokens R.one }) else (
        false,
        retry_after limits.block,
        record b { blocked_until = some (now + retry_after limits.block) },
      )

  -- !b.blockedUntil.IsZero() && b.blockedUntil.After(now)
  abbrev pub blocked_at : ℕ → Option ℕ → Bool
  blocked_at now none = false
  blocked_at now (some until) = ltb now until

  abbrev pub left_at : ℕ → Option ℕ → ℕ
  left_at now none = 0
  left_at now (some until) = until - now

  unfoldable pub draw : RateLimits → ℕ → Bucket → Bool × ℕ × Bucket
  draw limits now b =
      if blocked_at now b.blocked_until
      then (false, left_at now b.blocked_until, b)
      else spend limits now (refill limits now b)

  -- Acquire. The bucket that is changed last stands in the map all along.
  unfoldable pub acquire : RateLimits → ℕ → String → Buckets → Answer
  acquire limits now provider bs =
      let key = key_of provider in
      let b = bucket_at limits now (lookup key bs) in
      let (granted, wait, left) = draw limits now b in
      record {
        granted = granted;
        wait = wait;
        buckets = insert key left (sweep now (insert key b bs));
      }

  -- if b.blockedUntil.Before(until) { b.blockedUntil = until }
  abbrev pub later : Option ℕ → ℕ → ℕ
  later none until = until
  later (some old) until = if ltb old until then until else old

  unfoldable pub block_until : RateLimits → ℕ → String → ℕ → Buckets → Buckets
  block_until limits now provider until bs =
      let b = bucket_at limits now (lookup (key_of provider) bs) in
      insert (key_of provider) (record b { blocked_until = some (later b.blocked_until until) }) bs

  -- A call of the limiter, and the buckets after it; each takes the lock for all of its body.
  pub data Call : Type 0 where
    acquires : ℕ → String → Call
    blocks : ℕ → String → ℕ → Call

  unfoldable pub step : RateLimits → Call → Buckets → Buckets
  step limits (acquires now provider) bs = (acquire limits now provider bs).buckets
  step limits (blocks now provider until) bs = block_until limits now provider until bs

  unfoldable pub run : RateLimits → List Call → Buckets → Buckets
  run limits [] bs = bs
  run limits (c ∷ cs) bs = run limits cs (step limits c bs)
