-- ===== src/Registry/LimiterSafe.antt =====
-- What the limiter keeps true over any history of calls.
use network_services_operato.Common.{
  ℕ, ◌≡◌, String, false, ◌==◌, string_eq, List, [], ◌∷◌, All, Bool-cases, inl, inr,
}
use network_services_operato.Common.Map.{lookup, insert}
use network_services_operato.Registry.Limiter.{
  Float64, RateLimits, Bucket, Buckets, Call, acquires, blocks, min_f, key_of, bucket_at, is_stale,
  sweep, refill, spend, blocked_at, draw, acquire, block_until, step, run,
}

-- What IEEE arithmetic says of float64, NaN included: no number is less than itself, and one that is
-- less than x - 1 is less than x.
pub record FloatLaws (R : Float64) : Type 0 where
  pub irreflexive : (x : R.F) → R.lt x x ≡ false
  pub decreasing : (b x : R.F) → R.lt b x ≡ false → R.lt b (R.sub x R.one) ≡ false

module _ (R : Float64) (laws : FloatLaws R) where
  -- The bucket holds no more than the burst.
  abbrev pub IsBounded : RateLimits R → Bucket R → Type 0
  IsBounded limits b = R.lt limits.burst b.tokens ≡ false

  abbrev pub AreBounded : RateLimits R → Buckets R → Type 0
  AreBounded limits = All (λ kb. IsBounded limits kb.1)

  min_f-bound : (a b : R.F) → R.lt a (min_f R a b) ≡ false
  unfolding min_f
  min_f-bound a b = elim (Bool-cases (R.lt a b)) [
    | inl e ↦ rw (e) (laws.irreflexive a)
    | inr e ↦ rw (e) e
  ]

  bucket_at-IsBounded :
      (limits : RateLimits R) (now : ℕ) (k : String) (bs : Buckets R)
      → AreBounded limits bs
      → IsBounded limits (bucket_at R limits now (lookup k bs))
  unfolding bucket_at lookup
  bucket_at-IsBounded limits now k [] h = laws.irreflexive limits.burst
  bucket_at-IsBounded limits now k ((j, b) ∷ bs) (h, hs) = elim (Bool-cases (j == k)) [
    | inl e ↦ rw e h
    | inr e ↦ rw e (bucket_at-IsBounded limits now k bs hs)
  ]

  spend-IsBounded :
      (limits : RateLimits R) (now : ℕ) (b : Bucket R)
      → IsBounded limits b
      → IsBounded limits (spend R limits now b).2
  unfolding spend
  spend-IsBounded limits now b h = elim (Bool-cases (R.ge b.tokens R.one)) [
    | inl e ↦ rw e (laws.decreasing limits.burst b.tokens h)
    | inr e ↦ rw e h
  ]

  draw-IsBounded :
      (limits : RateLimits R) (now : ℕ) (b : Bucket R)
      → IsBounded limits b
      → IsBounded limits (draw R limits now b).2
  unfolding draw refill
  draw-IsBounded limits now b h = elim (Bool-cases (blocked_at R now b.blocked_until)) [
    | inl e ↦ rw e h
    | inr e ↦ rw e (spend-IsBounded limits now (refill R limits now b) (min_f-bound limits.burst _))
  ]

  insert-AreBounded :
      (limits : RateLimits R) (k : String) (b : Bucket R) (bs : Buckets R)
      → IsBounded limits b
      → AreBounded limits bs
      → AreBounded limits (insert k b bs)
  unfolding insert
  insert-AreBounded limits k b [] h hs = (h, tt)
  insert-AreBounded limits k b ((j, c) ∷ bs) h (q, hs) = elim (Bool-cases (j == k)) [
    | inl e ↦ rw e (h, hs)
    | inr e ↦ rw e (q, insert-AreBounded limits k b bs h hs)
  ]

  sweep-AreBounded :
      (limits : RateLimits R) (now : ℕ) (bs : Buckets R)
      → AreBounded limits bs
      → AreBounded limits (sweep R now bs)
  unfolding sweep
  sweep-AreBounded limits now [] hs = tt
  sweep-AreBounded limits now ((j, c) ∷ bs) (q, hs) = elim (Bool-cases (is_stale R now c)) [
    | inl e ↦ rw e (sweep-AreBounded limits now bs hs)
    | inr e ↦ rw e (q, sweep-AreBounded limits now bs hs)
  ]

  step-AreBounded :
      (limits : RateLimits R) (c : Call R) (bs : Buckets R)
      → AreBounded limits bs
      → AreBounded limits (step R limits c bs)
  unfolding step acquire block_until
  step-AreBounded limits (acquires now provider) bs hs =
      let b = bucket_at-IsBounded limits now (key_of R provider) bs hs in
      insert-AreBounded limits _ _ _ (draw-IsBounded limits now _ b)
        (sweep-AreBounded limits now _ (insert-AreBounded limits _ _ bs b hs))
  step-AreBounded limits (blocks now provider until) bs hs =
      insert-AreBounded limits _ _ bs (bucket_at-IsBounded limits now (key_of R provider) bs hs) hs

  steps-AreBounded :
      (limits : RateLimits R) (cs : List (Call R)) (bs : Buckets R)
      → AreBounded limits bs
      → AreBounded limits (run R limits cs bs)
  unfolding run
  steps-AreBounded limits [] bs hs = hs
  steps-AreBounded limits (c ∷ cs) bs hs =
      steps-AreBounded limits cs (step R limits c bs) (step-AreBounded limits c bs hs)

  -- After any calls, at any times and for any providers, from a limiter without buckets, no bucket
  -- holds more tokens than the burst.
  pub run-AreBounded :
      (limits : RateLimits R) (cs : List (Call R)) → AreBounded limits (run R limits cs [])
  run-AreBounded limits cs = steps-AreBounded limits cs [] tt
