-- ===== src/Common/Member.antt =====
-- Membership in a list: by a test, and as a place in the list.
use Prim.Native.Nat.{ℕ, zero, suc}
use Prim.Native.String.{String}
use mathlib.Core.Path.{◌≡◌, refl, sym, ap}
use mathlib.Core.Logic.{◌≢◌, ◌↔◌, inl, inr}
use mathlib.Core.Bool.{Bool, true, false}
use mathlib.Core.Option.{some}
use mathlib.Core.List.{List, [], ◌∷◌}
use native.Mathlib.Omega.{arith}
use network_services_operato.Common.Tests.{Eq, ◌==◌, string_eq, str_eq_iff, Bool-cases, or_split}
use network_services_operato.Common.Lists.{any, get_elem?, All}

abbrev pub StandsIn {ℓ} : {A : Type ℓ} → List A → A → Type ℓ
StandsIn xs s = (i : ℕ) × (get_elem? xs i ≡ some s)

module _ {ℓ} {A : Type ℓ} ⦃e : Eq A⦄ where
  abbrev pub has : List A → A → Bool
  has xs s = any (λ t. t == s) xs

  StandsIn-has : (xs : List A) (s : A) (i : ℕ) → get_elem? xs i ≡ some s → has xs s ≡ true
  StandsIn-has [] s i at = absurd (cc)
  StandsIn-has (x ∷ xs) s zero at = let t : x == s ≡ true = (e.same_iff x s).1 (cc) in rw t refl
  StandsIn-has (x ∷ xs) s (suc i) at = rw (StandsIn-has xs s i at) (ground arith)

  pub has_iff : (xs : List A) (s : A) → (has xs s ≡ true) ↔ StandsIn xs s
  has_iff [] s = (λ h. absurd (cc), λ v. absurd (let (i, at) = v in cc))
  has_iff (x ∷ xs) s = (
    elim (Bool-cases (x == s)) [
      | inl eq ↦ λ _. (0, ap some ((e.same_iff x s).0 eq))
      | inr ne ↦ rw ne (λ h. let (i, at) = (has_iff xs s).0 h in (suc i, at))
    ],
    λ v. StandsIn-has (x ∷ xs) s v.0 v.1,
  )

any-found {ℓ} :
    {A : Type ℓ} (p : A → Bool) (xs : List A) (i : ℕ) (x : A)
    → get_elem? xs i ≡ some x
    → p x ≡ true
    → any p xs ≡ true
any-found p [] i x at h = absurd (cc)
any-found p (y ∷ xs) zero x at h = let t : p y ≡ true = cc in rw t refl
any-found p (y ∷ xs) (suc i) x at h = rw (any-found p xs i x at h) (ground arith)

-- Some item of the list passes the test.
pub any_iff {ℓ} :
    {A : Type ℓ} (p : A → Bool) (xs : List A)
    → (any p xs ≡ true) ↔ ((x : A) × StandsIn xs x × (p x ≡ true))
any_iff p [] = (λ h. absurd (cc), λ v. absurd (let (x, (i, at), h) = v in cc))
any_iff p (y ∷ xs) = (
  elim (Bool-cases (p y)) [
    | inl e ↦ λ _. (y, (0, refl), e)
    | inr e ↦ rw e (λ h. let (x, (i, at), q) = (any_iff p xs).0 h in (x, (suc i, at), q))
  ],
  λ v. let (x, (i, at), h) = v in any-found p (y ∷ xs) i x at h,
)

pub differs_iff : (s t : String) → (s == t ≡ false) ↔ (s ≢ t)
differs_iff s t = ground (arith, str_eq_iff s t)

-- A text that is not among the others differs from each of them.
pub has-apart : (k : String) (xs : List String) → has xs k ≡ false → All (λ x. k ≢ x) xs
has-apart k [] h = tt
has-apart k (x ∷ xs) h =
    let (differs, absent) = or_split (x == k) (has xs k) h in
    (λ e. (differs_iff x k).0 differs (sym e), has-apart k xs absent)
