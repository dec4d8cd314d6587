-- ===== src/Util/ResourceName.antt =====
-- internal/util/resourcename/resourcename.go, with the hexadecimal MD5 of a text as a parameter.
use network_services_operato.Common.{
  ℕ, zero, suc, ◌-◌, ◌≤◌, ◌<◌, ◌≡◌, refl, sym, ap, ◌∙◌, ltb, leb, length, take, length-append,
  if◌then◌else◌, Option, none, some, ◌⊎◌, inl, inr, Bool-cases, [], ◌∷◌, ◌++◌, arith,
}
use network_services_operato.Common.Text.{Bytes}

module _ (md5_hex : Bytes → Bytes) where
  -- A dash and the hash.
  abbrev pub suffix : Bytes → Bytes
  suffix name = b'-' ∷ md5_hex name

  -- A panic is none.
  unfoldable pub optional_truncate_and_hash : Bytes → ℕ → Option Bytes
  optional_truncate_and_hash name max_length =
      let prefix_len = max_length - 33 in
      if leb (length name) max_length
      then some name
      else if leb max_length 33
      then none
      else some
          ((if ltb prefix_len (length name) then take prefix_len name else name) ++ suffix name)

  unfoldable pub get_valid_dns1123_name : Bytes → Option Bytes
  get_valid_dns1123_name name = optional_truncate_and_hash name 253

  unfoldable pub get_valid_dns1035_name : Bytes → Option Bytes
  get_valid_dns1035_name name = optional_truncate_and_hash name 63

length-take : (n : ℕ) (xs : Bytes) → n ≤ length xs → length (take n xs) ≡ n
length-take zero xs h = refl
length-take (suc n) [] h = absurd (omega (arith, h))
length-take (suc n) (x ∷ xs) h = ap suc (length-take n xs (omega (arith, h)))

-- Two texts that end alike after heads of the same length have the same tail.
same_tail : (xs ys : Bytes) {s t : Bytes} → length xs ≡ length ys → xs ++ s ≡ ys ++ t → s ≡ t
same_tail [] [] e h = h
same_tail [] (y ∷ ys) e h = absurd (omega (arith, e))
same_tail (x ∷ xs) [] e h = absurd (omega (arith, e))
same_tail (x ∷ xs) (y ∷ ys) e h = same_tail xs ys (omega (arith, e)) (cc)

module _ (md5_hex : Bytes → Bytes) where
  long :
      (name : Bytes) (max_length : ℕ)
      → 33 < max_length
      → max_length < length name
      → optional_truncate_and_hash md5_hex name max_length
        ≡ some (take (max_length - 33) name ++ suffix md5_hex name)
  unfolding optional_truncate_and_hash
  long name max_length wide more = ground arith

  truncated :
      (name : Bytes) (max_length : ℕ)
      → length (md5_hex name) ≡ 32
      → 33 < max_length
      → max_length < length name
      → length (take (max_length - 33) name ++ suffix md5_hex name) ≡ max_length
  truncated name max_length digits wide more = omega (
    arith,
    length-append (take (max_length - 33) name) (suffix md5_hex name),
    length-take (max_length - 33) name (omega (arith, more, wide)),
    digits,
    wide,
  )

  -- For a hash of 32 digits and a limit above 33 a name is always made: the given one if it is within
  -- the limit, and else one that is as long as the limit.
  pub optional_truncate_and_hash-IsWithin :
      (name : Bytes) (max_length : ℕ)
      → length (md5_hex name) ≡ 32
      → 33 < max_length
      → (made : Bytes) × (optional_truncate_and_hash md5_hex name max_length ≡ some made)
        × (((length name ≤ max_length) × (made ≡ name))
            ⊎ ((max_length < length name) × (length made ≡ max_length)))
  unfolding optional_truncate_and_hash
  optional_truncate_and_hash-IsWithin name max_length digits wide =
      elim (Bool-cases (leb (length name) max_length)) [
        | inl e ↦ (name, rw e refl, inl (ground arith, refl))
        | inr e ↦
            let more : max_length < length name = ground arith in
            (
              _,
              long name max_length wide more,
              inr (more, truncated name max_length digits wide more),
            )
      ]

  -- Two names that are too long and are made into the same one have the same hash.
  pub optional_truncate_and_hash-collides :
      (name other : Bytes) (max_length : ℕ)
      → 33 < max_length
      → max_length < length name
      → max_length < length other
      → optional_truncate_and_hash md5_hex name max_length
        ≡ optional_truncate_and_hash md5_hex other max_length
      → md5_hex name ≡ md5_hex other
  optional_truncate_and_hash-collides name other max_length wide long_name long_other same =
      let heads : length (take (max_length - 33) name) ≡ length (take (max_length - 33) other) =
        length-take (max_length - 33) name (omega (arith, long_name, wide))
        ∙ sym (length-take (max_length - 33) other (omega (arith, long_other, wide))) in
      let made =
        sym (long name max_length wide long_name) ∙ same ∙ long other max_length wide long_other in
      let tails : suffix md5_hex name ≡ suffix md5_hex other = same_tail _ _ heads (cc) in cc
