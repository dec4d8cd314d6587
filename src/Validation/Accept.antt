-- ===== src/Validation/Accept.antt =====
-- When a validator's list of errors is empty.
use network_services_operato.Common.{
  ℕ, suc, String, ◌≡◌, ◌≢◌, refl, subst, ◌↔◌, ◌⊎◌, if◌then◌else◌, inl, inr, Bool-cases, ◌≤◌, Bool,
  true, false, not, ◌&&◌, ◌==◌, ltb, string_eq, Option, none, some, List, [], ◌∷◌, map, All, arith,
  str_eq_iff,
}
use network_services_operato.Common.Member.{has_iff, StandsIn, has}
use network_services_operato.Validation.Errors.{
  FieldError, Errors, when, each, given, Given, either, Either, is_some, ◌+e◌, ◌⋀◌,
}

pub when_iff : (b : Bool) (e : FieldError) → (when b e ≡ []) ↔ (b ≡ false)
unfolding when
when_iff b e = ground arith

pub limit_iff : (most n : ℕ) (e : FieldError) → (when (ltb most n) e ≡ []) ↔ (n ≤ most)
unfolding when
limit_iff most n e = ground arith

pub equal_iff : (s t : String) (e : FieldError) → (when (not (s == t)) e ≡ []) ↔ (s ≡ t)
unfolding when
equal_iff s t e = ground (arith, str_eq_iff s t)

pub distinct_iff : (s t : String) (e : FieldError) → (when (s == t) e ≡ []) ↔ (s ≢ t)
unfolding when
distinct_iff s t e = ground (arith, str_eq_iff s t)

pub absent_iff {ℓ} :
    {A : Type ℓ} (o : Option A) (e : FieldError) → (when (is_some o) e ≡ []) ↔ (o ≡ none)
unfolding when
absent_iff none e = (λ _. refl, λ _. refl)
absent_iff (some a) e = (λ h. absurd (cc), λ h. absurd (cc))

module _ {ℓ κ} {P : Type ℓ} {Q : Type κ} where
  -- Two groups of errors are both empty when the whole is.
  infixr 55 ◌⊗◌
  pub ◌⊗◌ : {xs ys : Errors} → (xs ≡ []) ↔ P → (ys ≡ []) ↔ Q → (xs +e ys ≡ []) ↔ (P × Q)
  ◌⊗◌ {xs = []} h k = (λ e. (h.0 refl, k.0 e), λ q. k.1 q.1)
  ◌⊗◌ {xs = x ∷ xs} h k = (λ e. absurd (cc), λ q. absurd (let z = h.1 q.0 in cc))

module _ {ℓ κ} {A : Type ℓ} {P : A → Type κ} where
  pub each_iff :
      {f : ℕ → A → Errors}
      → ((i : ℕ) (x : A) → (f i x ≡ []) ↔ P x)
      → (i : ℕ) (xs : List A) → (each f i xs ≡ []) ↔ All P xs
  unfolding each
  each_iff h i [] = (λ _. tt, λ _. refl)
  each_iff h i (x ∷ xs) = h i x ⊗ each_iff h (suc i) xs

  pub given_iff :
      {f : A → Errors}
      → ((x : A) → (f x ≡ []) ↔ P x)
      → (o : Option A) → (given f o ≡ []) ↔ Given P o
  unfolding given
  given_iff h none = (λ _. tt, λ _. refl)
  given_iff h (some a) = h a

pub map_nil_iff {ℓ κ} :
    {A : Type ℓ} {B : Type κ} (f : A → B) (xs : List A) → (map f xs ≡ []) ↔ (xs ≡ [])
map_nil_iff f [] = (λ _. refl, λ _. refl)
map_nil_iff f (x ∷ xs) = (λ e. absurd (cc), λ e. absurd (cc))

pub missing_iff :
    (xs : List String) (s : String) (e : FieldError)
    → (when (not (has xs s)) e ≡ []) ↔ StandsIn xs s
unfolding when
missing_iff xs s e = elim (Bool-cases (has xs s)) [
  | inl h ↦ rw h (λ _. (has_iff xs s).0 h, λ _. refl)
  | inr h ↦ rw h (λ k. absurd (cc), λ v. absurd (let t = (has_iff xs s).1 v in cc))
]

pub either_iff {ℓ κ μ} :
    {A : Type ℓ} {P : A → Type κ} {Q : Type μ} {f : A → Errors} {more : Errors}
    → ((a : A) → (f a ≡ []) ↔ P a)
    → (more ≡ []) ↔ Q
    → (o : Option A) → (either f more o ≡ []) ↔ Either P Q o
unfolding either
either_iff h k none =
    (λ e. inr (refl, k.0 e), λ v. elim v [ inl (a, e, _) ↦ absurd (cc) | inr (_, q) ↦ k.1 q ])
either_iff {P = P} h k (some a) = (
  λ e. inl (a, refl, (h a).0 e),
  λ v. elim v [
    | inl (b, e, q) ↦ (h a).1 (let s : b ≡ a = cc in subst P s q)
    | inr (e, _) ↦ absurd (cc)
  ],
)

-- A value that must be there.
pub present_iff {ℓ κ} :
    {A : Type ℓ} {P : A → Type κ} {f : A → Errors} (e : FieldError)
    → ((a : A) → (f a ≡ []) ↔ P a)
    → (o : Option A) → (either f (e ∷ []) o ≡ []) ↔ ((a : A) × (o ≡ some a) × P a)
unfolding either
present_iff e h none = (λ q. absurd (cc), λ v. absurd (let (a, q, _) = v in cc))
present_iff {P = P} e h (some a) = (
  λ q. (a, refl, (h a).0 q),
  λ v. let (b, q, w) = v in (h a).1 (let s : b ≡ a = cc in subst P s w),
)

-- A text that must differ from another, and more only if it does.
pub unless_iff {ℓ} :
    {Q : Type ℓ} (s t : String) (e : FieldError) {ys : Errors}
    → (ys ≡ []) ↔ Q
    → ((if s == t then e ∷ [] else ys) ≡ []) ↔ ((s ≢ t) ⋀ Q)
unless_iff s t e h = elim (Bool-cases (s == t)) [
  | inl eq ↦ rw eq (λ q. absurd (cc), λ v. absurd (v.0 ((str_eq_iff s t).0 eq)))
  | inr ne ↦
      rw ne (λ q. (λ same. absurd (let u = (str_eq_iff s t).1 same in cc), h.0 q), λ v. h.1 v.1)
]

-- Nothing is checked of a text that equals another.
pub exempt_iff {ℓ} :
    {Q : Type ℓ} (s t : String) {ys : Errors}
    → (ys ≡ []) ↔ Q
    → ((if s == t then [] else ys) ≡ []) ↔ ((s ≡ t) ⊎ Q)
exempt_iff s t h = elim (Bool-cases (s == t)) [
  | inl e ↦ rw e (λ _. inl ((str_eq_iff s t).0 e), λ _. refl)
  | inr e ↦ rw e (
    λ q. inr (h.0 q),
    λ v. elim v [ inl same ↦ absurd (let u = (str_eq_iff s t).1 same in cc) | inr q ↦ h.1 q ],
  )
]

-- The branches of a test.
pub branch_iff {ℓ κ} :
    {P : Type ℓ} {Q : Type κ} (b : Bool) {xs ys : Errors}
    → (xs ≡ []) ↔ P
    → (ys ≡ []) ↔ Q
    → ((if b then xs else ys) ≡ []) ↔ (((b ≡ true) × P) ⊎ ((b ≡ false) × Q))
branch_iff true h k =
    (λ e. inl (refl, h.0 e), λ v. elim v [ inl (_, p) ↦ h.1 p | inr (e, _) ↦ absurd (cc) ])
branch_iff false h k =
    (λ e. inr (refl, k.0 e), λ v. elim v [ inl (e, _) ↦ absurd (cc) | inr (_, q) ↦ k.1 q ])

pub empty_iff {ℓ} : {A : Type ℓ} (xs : List A) → (xs ≡ []) ↔ (xs ≡ [])
empty_iff xs = (λ e. e, λ e. e)

pub only_iff {ℓ} :
    {Q : Type ℓ} (s t : String) {ys : Errors}
    → (ys ≡ []) ↔ Q
    → ((if s == t then ys else []) ≡ []) ↔ ((s ≢ t) ⊎ Q)
only_iff s t h = elim (Bool-cases (s == t)) [
  | inl e ↦ rw e (
    λ q. inr (h.0 q),
    λ v. elim v [ inl ne ↦ absurd (ne ((str_eq_iff s t).0 e)) | inr q ↦ h.1 q ],
  )
  | inr e ↦ rw e (λ _. inl (λ same. absurd (let u = (str_eq_iff s t).1 same in cc)), λ _. refl)
]

-- A condition that is a conjunction fails if a part fails.
pub and_iff {ℓ κ} :
    {P : Type ℓ} {Q : Type κ} (a b : Bool)
    → (a ≡ false) ↔ P
    → (b ≡ false) ↔ Q
    → (a && b ≡ false) ↔ (P ⊎ Q)
and_iff false b h k = (λ _. inl (h.0 refl), λ _. refl)
and_iff true b h k =
    (λ e. inr (k.0 e), λ v. elim v [ inl p ↦ absurd (let u = h.1 p in cc) | inr q ↦ k.1 q ])

pub condition_iff {ℓ} :
    {P : Type ℓ} (b : Bool) (e : FieldError) → (b ≡ false) ↔ P → (when b e ≡ []) ↔ P
condition_iff b e h = (λ w. h.0 ((when_iff b e).0 w), λ p. (when_iff b e).1 (h.1 p))

pub negated_iff : (b : Bool) → (not b ≡ false) ↔ (b ≡ true)
negated_iff b = ground arith

pub listed_iff : (xs : List String) (s : String) → (not (has xs s) ≡ false) ↔ StandsIn xs s
listed_iff xs s =
    (λ h. (has_iff xs s).0 ((negated_iff _).0 h), λ v. (negated_iff _).1 ((has_iff xs s).1 v))

pub none_iff {ℓ} : {A : Type ℓ} (o : Option A) → (is_some o ≡ false) ↔ (o ≡ none)
none_iff none = (λ _. refl, λ _. refl)
none_iff (some a) = (λ h. absurd (cc), λ h. absurd (cc))

pub within_iff : (most n : ℕ) → (ltb most n ≡ false) ↔ (n ≤ most)
within_iff most n = ground arith
