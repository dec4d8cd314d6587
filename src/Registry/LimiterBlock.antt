-- ===== src/Registry/LimiterBlock.antt =====
-- How long a block lasts (BlockUntil of internal/registrydata/limiter_memory.go).
use network_services_operato.Common.{
  ℕ, ◌+◌, ◌-◌, ◌≤◌, ◌<◌, ◌≡◌, refl, ap, ◌∙◌, String, true, false, ◌==◌, string_eq, Option, none,
  some, List, [], ◌∷◌, All, arith, str_eq_iff, Bool-cases, inl, inr, ==_refl,
}
use network_services_operato.Common.Map.{lookup, insert, lookup-insert}
use network_services_operato.Registry.Limiter.{
  Float64, RateLimits, Bucket, Buckets, Call, acquires, blocks, state_ttl, key_of, bucket_at,
  is_stale, sweep, draw, acquire, later, block_until, step, run,
}

module _ (R : Float64) where
  -- A bucket that is blocked until `until` or later, and was touched at `since` or later.
  abbrev pub IsBlocked : ℕ → ℕ → Bucket R → Type 0
  IsBlocked since until b =
      (v : ℕ) × (b.blocked_until ≡ some v)
      × (until ≤ v)
      × ((t : ℕ) × (b.last_touched ≡ some t) × (since ≤ t))

  abbrev pub StaysBlocked : String → ℕ → ℕ → Buckets R → Type 0
  StaysBlocked provider since until bs =
      (b : Bucket R) × (lookup (key_of R provider) bs ≡ some b) × IsBlocked since until b

  draw-blocked :
      (limits : RateLimits R) (now v : ℕ) (b : Bucket R)
      → b.blocked_until ≡ some v
      → now < v
      → draw R limits now b ≡ (false, v - now, b)
  unfolding draw
  draw-blocked limits now v b e h = rw e (ground arith)

  lookup-sweep :
      (k : String) (now : ℕ) (b : Bucket R) (bs : Buckets R)
      → is_stale R now b ≡ false
      → lookup k bs ≡ some b
      → lookup k (sweep R now bs) ≡ some b
  unfolding lookup sweep
  lookup-sweep k now b [] fresh h = h
  lookup-sweep k now b ((j, c) ∷ bs) fresh h = ground (arith, lookup-sweep k now b bs fresh)

  fresh :
      (since until now : ℕ) (b : Bucket R)
      → IsBlocked since until b
      → now < until
      → until ≤ since + state_ttl R
      → is_stale R now b ≡ false
  unfolding is_stale
  fresh since until now b (v, _, _, (t, e, h)) early short = rw e (ground arith)

  other :
      (k j : String) (b c : Bucket R) (bs : Buckets R)
      → j == k ≡ false
      → lookup k bs ≡ some b
      → lookup k (insert j c bs) ≡ some b
  other k j b c bs ne h = lookup-insert j k c bs ∙ rw ne h

  own :
      (k j : String) (c : Bucket R) (bs : Buckets R)
      → j == k ≡ true
      → lookup k (insert j c bs) ≡ some c
  own k j c bs e = lookup-insert j k c bs ∙ rw e refl

  abbrev pub time_of : Call R → ℕ
  time_of (acquires now provider) = now
  time_of (blocks now provider until) = now

  bucket_at-IsBlocked :
      (limits : RateLimits R) (since until now : ℕ) (o : Option (Bucket R)) (b : Bucket R)
      → o ≡ some b
      → since ≤ now
      → IsBlocked since until b
      → IsBlocked since until (bucket_at R limits now o)
  unfolding bucket_at
  bucket_at-IsBlocked limits since until now o b e late (v, ev, le, _) =
      rw e (v, ev, le, (now, refl, late))

  draw-IsBlocked :
      (limits : RateLimits R) (since until now : ℕ) (b : Bucket R)
      → now < until
      → IsBlocked since until b
      → IsBlocked since until (draw R limits now b).2
  draw-IsBlocked limits since until now b early (v, ev, le, touched) =
      rw (draw-blocked limits now v b ev (omega (arith, early, le))) (v, ev, le, touched)

  block-IsBlocked :
      (since until u : ℕ) (b : Bucket R)
      → IsBlocked since until b
      → IsBlocked since until (record b { blocked_until = some (later R b.blocked_until u) })
  block-IsBlocked since until u b (v, ev, le, touched) =
      (later R b.blocked_until u, refl, rw ev (ground arith), touched)

  step-StaysBlocked :
      (limits : RateLimits R) (provider : String) (since until : ℕ) (c : Call R) (bs : Buckets R)
      → until ≤ since + state_ttl R
      → (since ≤ time_of c) × (time_of c < until)
      → StaysBlocked provider since until bs
      → StaysBlocked provider since until (step R limits c bs)
  unfolding step acquire block_until
  step-StaysBlocked limits provider since until (acquires now name) bs short (late, early)
        (b, found, blocked) =
      elim (Bool-cases (key_of R name == key_of R provider)) [
        | inl same ↦
            let at = ap (λ k. lookup k bs) ((str_eq_iff _ _).0 same) ∙ found in
            let touched = bucket_at-IsBlocked limits since until now _ b at late blocked in
            (_, own _ _ _ _ same, draw-IsBlocked limits since until now _ early touched)
        | inr ne ↦ (
          b,
          other _ _ b _ _ ne (
              lookup-sweep _ now b _ (fresh since until now b blocked early short)
                (other _ _ b _ bs ne found)),
          blocked,
        )
      ]
  step-StaysBlocked limits provider since until (blocks now name u) bs short (late, early)
        (b, found, blocked) =
      elim (Bool-cases (key_of R name == key_of R provider)) [
        | inl same ↦
            let at = ap (λ k. lookup k bs) ((str_eq_iff _ _).0 same) ∙ found in
            let touched = bucket_at-IsBlocked limits since until now _ b at late blocked in
            (
              _,
              own _ _ _ bs same,
              block-IsBlocked since until u (bucket_at R limits now (lookup (key_of R name) bs))
                  touched,
            )
        | inr ne ↦ (b, other _ _ b _ bs ne found, blocked)
      ]

  run-StaysBlocked :
      (limits : RateLimits R) (provider : String) (since until : ℕ) (cs : List (Call R))
      (bs : Buckets R)
      → until ≤ since + state_ttl R
      → All (λ c. (since ≤ time_of c) × (time_of c < until)) cs
      → StaysBlocked provider since until bs
      → StaysBlocked provider since until (run R limits cs bs)
  unfolding run
  run-StaysBlocked limits provider since until [] bs short hs blocked = blocked
  run-StaysBlocked limits provider since until (c ∷ cs) bs short (h, hs) blocked =
      run-StaysBlocked limits provider since until cs (step R limits c bs) short hs
        (step-StaysBlocked limits provider since until c bs short h blocked)

  later-reaches : (o : Option ℕ) (u : ℕ) → u ≤ later R o u
  later-reaches none u = omega arith
  later-reaches (some v) u = ground arith

  latest_block :
      (limits : RateLimits R) (now until : ℕ) (o : Option (Bucket R))
      → let b = bucket_at R limits now o in
        IsBlocked now until (record b { blocked_until = some (later R b.blocked_until until) })
  unfolding bucket_at
  latest_block limits now until none = (until, refl, omega arith, (now, refl, omega arith))
  latest_block limits now until (some b) = (
    later R b.blocked_until until,
    refl,
    later-reaches b.blocked_until until,
    (now, refl, omega arith),
  )

  block_until-StaysBlocked :
      (limits : RateLimits R) (provider : String) (now until : ℕ) (bs : Buckets R)
      → StaysBlocked provider now until (block_until R limits now provider until bs)
  unfolding block_until bucket_at
  block_until-StaysBlocked limits provider now until bs = (
    _,
    own _ _ _ bs (==_refl (key_of R provider)),
    latest_block limits now until (lookup (key_of R provider) bs),
  )

  draw-refused :
      (limits : RateLimits R) (since until now : ℕ) (b : Bucket R)
      → now < until
      → IsBlocked since until b
      → ((draw R limits now b).0 ≡ false) × (until ≤ now + (draw R limits now b).1)
  draw-refused limits since until now b early (v, ev, le, _) =
      rw (draw-blocked limits now v b ev (omega (arith, early, le)))
        (refl, omega (arith, early, le))

  -- Once BlockUntil has blocked a provider until a time no more than 30 minutes ahead, then whatever
  -- calls are made for whatever providers before that time, an Acquire for the provider before that
  -- time is refused, with a wait that reaches it.
  pub acquire-refused_while_blocked :
      (limits : RateLimits R) (provider : String) (now until t : ℕ) (cs : List (Call R))
      (bs : Buckets R)
      → until ≤ now + state_ttl R
      → All (λ c. (now ≤ time_of c) × (time_of c < until)) cs
      → now ≤ t
      → t < until
      → let a =
          acquire R limits t provider
            (run R limits cs (block_until R limits now provider until bs)) in
        (a.granted ≡ false) × (until ≤ t + a.wait)
  unfolding acquire
  acquire-refused_while_blocked limits provider now until t cs bs short hs late early =
      let (b, found, blocked) =
        run-StaysBlocked limits provider now until cs _ short hs
          (block_until-StaysBlocked limits provider now until bs) in
      draw-refused limits now until t _ early
        (bucket_at-IsBlocked limits now until t _ b found late blocked)
