-- ===== src/Validation/Errors.antt =====
-- The field errors and paths of k8s.io/apimachinery that internal/validation builds, and the checks
-- of other packages that it calls. An error is its kind and its path; its message and the value it
-- quotes are left out.
use network_services_operato.Common.{
  ℕ, suc, String, ◌≡◌, ◌⊎◌, Bool, true, false, string_eq, Option, none, some, List, [], ◌∷◌, ◌++◌,
  map,
}
use network_services_operato.Common.Int.{ℤ}

pub data Kind : Type 0 where
  required invalid not_supported forbidden too_many too_long duplicate : Kind

-- fldPath.Child(name), fldPath.Index(i) and fldPath.Key(k)
pub data Step : Type 0 where
  child key : String → Step
  index : ℕ → Step

-- A path, its last step first.
abbrev pub FieldPath : Type 0
FieldPath = List Step

pub data FieldError : Type 0 where
  fault : Kind → FieldPath → FieldError

abbrev pub Errors : Type 0
Errors = List FieldError

-- The parts of net/url's URL that the validators read.
pub record Url : Type 0 where
  pub scheme : String
  pub user : Option String
  pub hostname : String
  pub path : String
  pub raw_query : String
  pub fragment : String

-- net.ParseIP and the classes of an IP, url.Parse, time.ParseDuration (in nanoseconds), and the
-- faults that IsFullyQualifiedDomainName and IsDNS1123Label find in a name.
pub record Platform : Type 1 where
  pub Ip : Type 0
  pub parse_ip : String → Option Ip
  pub is_unspecified : Ip → Bool
  pub is_loopback : Ip → Bool
  pub is_link_local_unicast : Ip → Bool
  pub is_link_local_multicast : Ip → Bool
  pub parse_url : String → Option Url
  pub parse_duration : String → Option ℤ
  pub fqdn_faults : String → List Kind
  pub label_faults : String → List String

-- if b { allErrs = append(allErrs, e) }
unfoldable pub when : Bool → FieldError → Errors
when true e = e ∷ []
when false e = []

-- allErrs = append(allErrs, more...)
infixr 55 ◌+e◌
abbrev pub ◌+e◌ : Errors → Errors → Errors
errors +e more = errors ++ more

-- Both, nested to the right.
infixr 20 ◌⋀◌
abbrev pub ◌⋀◌ {ℓ κ} : Type ℓ → Type κ → Type (ℓ ⊔ κ)
P ⋀ Q = P × Q

abbrev pub is_some {ℓ} : {A : Type ℓ} → Option A → Bool
is_some none = false
is_some (some a) = true

-- ptr.Deref(o, a)
abbrev pub deref {ℓ} : {A : Type ℓ} → Option A → A → A
deref none a = a
deref (some b) a = b

module _ {ℓ} {A : Type ℓ} where
  -- for i, x := range xs { allErrs = append(allErrs, f(i, x)...) }, from index i on
  unfoldable pub each : (ℕ → A → Errors) → ℕ → List A → Errors
  each f i [] = []
  each f i (x ∷ xs) = f i x +e each f (suc i) xs

  -- if o != nil { allErrs = append(allErrs, f(*o)...) }
  unfoldable pub given : (A → Errors) → Option A → Errors
  given f none = []
  given f (some a) = f a

  -- if o != nil { ...f(*o) } else { ...more }
  unfoldable pub either : (A → Errors) → Errors → Option A → Errors
  either f more none = more
  either f more (some a) = f a

  abbrev pub Given {κ} : (A → Type κ) → Option A → Type κ
  Given P none = Unit
  Given P (some a) = P a

-- validation.IsFullyQualifiedDomainName(fldPath, name)
unfoldable pub fqdn_errors : ⦃p : Platform⦄ → FieldPath → String → Errors
fqdn_errors ⦃p⦄ path name = map (λ k. fault k path) (p.fqdn_faults name)

-- The value of an option fulfils the one condition, or there is none and the other holds.
abbrev pub Either {ℓ κ μ} : {A : Type ℓ} → (A → Type κ) → Type μ → Option A → Type (ℓ ⊔ κ ⊔ μ)
Either P Q o = ((a : _) × (o ≡ some a) × P a) ⊎ ((o ≡ none) × Q)
