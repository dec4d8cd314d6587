-- ===== src/Util/Nameserver.antt =====
-- internal/util/dns/nameserver.go, with strings.TrimSpace and strings.ToLower as parameters.
use network_services_operato.Common.{
  ℕ, zero, suc, ap, subst, ◌≡◌, ◌≢◌, refl, ◌↔◌, String, Bool, true, false, not, ◌&&◌, ltb, length,
  any, get_elem?, ◌==◌, string_eq, if◌then◌else◌, some, List, [], ◌∷◌, arith, str_eq_iff,
  Bool-cases, inl, inr,
}
use network_services_operato.Common.Member.{has, StandsIn, has_iff, any_iff}

pub record Strings : Type 0 where
  pub trim_space : String → String
  pub trim_suffix : String → String → String
  pub to_lower : String → String

-- Of a zone's conditions it matters which are true.
pub record Zone : Type 0 where
  pub is_condition_true : String → Bool
  pub nameservers : List String

-- A list that is empty fails the test, and the condition too.
past {ℓ} :
    {Q : Type ℓ} (xs : List String) {b : Bool}
    → (xs ≡ [] → Q → ⊥)
    → (b ≡ true) ↔ Q
    → ((if not (ltb 0 (length xs)) then false else b) ≡ true) ↔ Q
past [] empty h = (λ e. absurd (cc), λ q. absurd (empty refl q))
past (x ∷ xs) empty h = let e : not (ltb 0 (length (x ∷ xs))) ≡ false = ground arith in rw e h

module _ (s : Strings) where
  unfoldable pub normalize_nameserver : String → String
  normalize_nameserver name = s.to_lower (s.trim_suffix (s.trim_space name) ".")

  -- The set of the names that are not empty.
  unfoldable pub normalized : List String → List String
  normalized [] = []
  normalized (name ∷ names) =
      let rest = normalized names in
      if normalize_nameserver name == "" then rest else normalize_nameserver name ∷ rest

  unfoldable pub has_nameserver_overlap : List String → List String → Bool
  has_nameserver_overlap a b =
      if not (ltb 0 (length a))
      then false
      else if not (ltb 0 (length b))
      then false
      else any (λ n. any (λ m. m == n) (normalized a)) (normalized b)

  -- The host names of the domain's name servers that have one.
  unfoldable pub hostnames : List String → List String
  hostnames [] = []
  hostnames (h ∷ hs) = let rest = hostnames hs in if h == "" then rest else h ∷ rest

  unfoldable pub domain_nameservers_overlap_zone : List String → List String → Bool
  domain_nameservers_overlap_zone domain zone =
      if not (ltb 0 (length domain))
      then false
      else if not (ltb 0 (length zone))
      then false
      else has_nameserver_overlap (hostnames domain) zone

  unfoldable pub has_dns_authority : List String → Zone → Bool
  has_dns_authority domain zone =
      if not (zone.is_condition_true "Accepted" && zone.is_condition_true "Programmed")
      then false
      else if not (ltb 0 (length zone.nameservers))
      then false
      else if not (ltb 0 (length domain))
      then false
      else domain_nameservers_overlap_zone domain zone.nameservers

  -- A name that is not empty and is what one of the names is normalized to.
  abbrev pub IsNamed : List String → String → Type 0
  IsNamed names n = (n ≢ "") × (raw : String) × StandsIn names raw × (normalize_nameserver raw ≡ n)

  later :
      (name : String) (names : List String) (n : String)
      → IsNamed names n
      → IsNamed (name ∷ names) n
  later name names n (ne, raw, (i, at), e) = (ne, raw, (suc i, at), e)

  head :
      (name : String) (names : List String) (n : String) (i : ℕ)
      → (normalize_nameserver name == "") ≡ false
      → ((j : ℕ) → get_elem? (normalized names) j ≡ some n → IsNamed names n)
      → get_elem? (normalize_nameserver name ∷ normalized names) i ≡ some n
      → IsNamed (name ∷ names) n
  head name names n zero e rest at =
      (λ q. absurd (let t = (str_eq_iff _ _).1 q in cc), name, (0, refl), cc)
  head name names n (suc i) e rest at = later name names n (rest i at)

  normalized-IsNamed :
      (names : List String) (n : String) (i : ℕ)
      → get_elem? (normalized names) i ≡ some n
      → IsNamed names n
  unfolding normalized
  normalized-IsNamed [] n i at = absurd (cc)
  normalized-IsNamed (name ∷ names) n i at = elim (Bool-cases (normalize_nameserver name == "")) [
    | inl e ↦ later name names n (
        normalized-IsNamed names n i (
          subst
            (λ b.
              get_elem?
                (if b then normalized names else normalize_nameserver name ∷ normalized names) i
              ≡ some n)
            e at))
    | inr e ↦
        head name names n i e (λ j. normalized-IsNamed names n j)
          (subst
            (λ b.
              get_elem?
                (if b then normalized names else normalize_nameserver name ∷ normalized names) i
              ≡ some n)
            e at)
  ]

  IsNamed-normalized :
      (names : List String) (n raw : String) (i : ℕ)
      → n ≢ ""
      → get_elem? names i ≡ some raw
      → normalize_nameserver raw ≡ n
      → StandsIn (normalized names) n
  unfolding normalized
  IsNamed-normalized [] n raw i ne at e = absurd (cc)
  IsNamed-normalized (name ∷ names) n raw zero ne at e =
      let same : normalize_nameserver name ≡ n = cc in
      let fresh : (normalize_nameserver name == "") ≡ false =
        ground (arith, str_eq_iff (normalize_nameserver name) "") in
      rw fresh (0, ap some same)
  IsNamed-normalized (name ∷ names) n raw (suc i) ne at e =
      let (j, here) = IsNamed-normalized names n raw i ne at e in
      elim (Bool-cases (normalize_nameserver name == "")) [
        | inl old ↦ rw old (j, here)
        | inr new ↦ rw new (suc j, here)
      ]

  -- A name server that both lists name.
  abbrev pub AreShared : List String → List String → Type 0
  AreShared a b = (n : String) × IsNamed a n × IsNamed b n

  sets_iff :
      (a b : List String) → (any (λ n. has (normalized a) n) (normalized b) ≡ true) ↔ AreShared a b
  sets_iff a b =
      let some_of_b = any_iff (λ n. has (normalized a) n) (normalized b) in
      (
        λ h.
            let (n, (i, in_b), q) = some_of_b.0 h in
            let (j, in_a) = (has_iff (normalized a) n).0 q in
            (n, normalized-IsNamed a n j in_a, normalized-IsNamed b n i in_b),
        λ v.
            let (n, (ne, ra, (i, at), ea), (_, rb, (j, bt), eb)) = v in
            some_of_b.1 (
              n,
              IsNamed-normalized b n rb j ne bt eb,
              (has_iff (normalized a) n).1 (IsNamed-normalized a n ra i ne at ea),
            ),
      )

  nothing_named : (n : String) → IsNamed [] n → ⊥
  nothing_named n (_, raw, (i, at), _) = cc

  none_of_first : (a b : List String) → a ≡ [] → AreShared a b → ⊥
  none_of_first a b e (n, h, _) = nothing_named n (subst (λ a. IsNamed a n) e h)

  none_of_second : (a b : List String) → b ≡ [] → AreShared a b → ⊥
  none_of_second a b e (n, _, h) = nothing_named n (subst (λ b. IsNamed b n) e h)

  -- Two lists of name servers overlap exactly if some name that is not empty is what a name of each is
  -- normalized to.
  pub has_nameserver_overlap_iff :
      (a b : List String) → (has_nameserver_overlap a b ≡ true) ↔ AreShared a b
  unfolding has_nameserver_overlap
  has_nameserver_overlap_iff a b =
      past a (none_of_first a b) (past b (none_of_second a b) (sets_iff a b))
