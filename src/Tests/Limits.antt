-- ===== src/Tests/Limits.antt =====
-- The limiter at work, with whole numbers for float64 (internal/registrydata/limiter_memory.go).
use network_services_operato.Common.{
  ℕ, ◌+◌, ◌-◌, ◌*◌, ◌/◌, ◌≤◌, ◌≡◌, refl, false, ltb, leb, string_eq, List, [], ◌∷◌, arith,
}
use network_services_operato.Common.Int.{pos}
use network_services_operato.Common.Map.{lookup, insert}
use network_services_operato.Registry.Limiter.{
  Float64, RateLimits, Bucket, Buckets, Call, acquires, blocks, acquire, block_until, run,
}
use network_services_operato.Registry.LimiterSafe.{FloatLaws, AreBounded, run-AreBounded}
use network_services_operato.Registry.LimiterBlock.{acquire-refused_while_blocked}

abbrev whole : Float64
whole = record {
  F = ℕ;
  lt = ltb;
  ge = λ a b. leb b a;
  add = λ a b. a + b;
  sub = λ a b. a - b;
  mul = λ a b. a * b;
  one = 1;
  seconds = λ n. n / 1000000000;
}

whole_laws : FloatLaws whole
whole_laws = record { irreflexive = λ x. ground arith; decreasing = λ b x h. ground arith }

abbrev limits : RateLimits whole
limits = record { rate_per_sec = 2; burst = 1; block = pos 5 }

-- The second call finds no token left.
second_is_refused :
    (acquire whole limits 10 "rdap" (run whole limits (acquires 10 "rdap" ∷ []) [])).granted ≡ false
unfolding acquire network_services_operato.Registry.Limiter.draw
    network_services_operato.Registry.Limiter.bucket_at lookup run
    network_services_operato.Registry.Limiter.step insert
    network_services_operato.Registry.Limiter.sweep
    network_services_operato.Registry.Limiter.is_stale
    network_services_operato.Registry.Limiter.spend network_services_operato.Registry.Limiter.refill
    network_services_operato.Registry.Limiter.min_f
second_is_refused = refl

abbrev some_calls : List (Call whole)
some_calls = acquires 20 "" ∷ blocks 30 "rdap" 50 ∷ acquires 40 "rdap" ∷ []

run-AreBounded_example : AreBounded whole whole_laws limits (run whole limits some_calls [])
run-AreBounded_example = run-AreBounded whole whole_laws limits some_calls

acquire-refused_while_blocked_example :
    let a =
      acquire whole limits 60 "rdap"
        (run whole limits some_calls (block_until whole limits 10 "rdap" 100 [])) in
    (a.granted ≡ false) × (100 ≤ 60 + a.wait)
acquire-refused_while_blocked_example =
    acquire-refused_while_blocked whole limits "rdap" 10 100 60 some_calls [] (omega arith)
      ((omega arith, omega arith), ((omega arith, omega arith), ((omega arith, omega arith), tt)))
      (omega arith) (omega arith)
