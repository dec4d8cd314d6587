-- ===== src/Common/Result.antt =====
-- Go's (value, error) as a value: a chain of fallible steps is a `do` block.
use Prim.Native.Nat.{ℕ, ◌+◌}
use mathlib.Core.Path.{◌≡◌, refl, subst}
use mathlib.Core.List.{List, [], ◌∷◌}
use network_services_operato.Common.Lists.{Paired}

pub data Result {ℓ κ} (E : Type ℓ) (A : Type κ) : Type (ℓ ⊔ κ) where
  ok : A → Result E A
  err : E → Result E A

infixl 5 ◌>>=◌
abbrev pub ◌>>=◌ {ℓ κ ι} :
    {E : Type ℓ} {A : Type κ} {B : Type ι} → Result E A → (A → Result E B) → Result E B
ok value >>= next = next value
err why >>= next = err why

-- A chain succeeds only if its first step does, with the rest run on what that step returned.
pub >>=-eq-ok {ℓ κ ι} :
    {E : Type ℓ} {T : Type κ} {U : Type ι} (step : Result E T) (rest : T → Result E U) {u : U}
    → (step >>= rest) ≡ ok u
    → (t : T) × (step ≡ ok t) × (rest t ≡ ok u)
>>=-eq-ok (err why) rest e = absurd (cc)
>>=-eq-ok (ok t) rest e = (t, refl, e)

-- Two steps of a loop that counts its changes: the second runs only if the first succeeds, and the
-- counts add up.
module _ {ℓ κ ι μ} {E : Type ℓ} {A : Type κ} {B : Type ι} {C : Type μ} where
  abbrev pub both : (A → B → C) → Result E (A × ℕ) → Result E (B × ℕ) → Result E (C × ℕ)
  both g m k = m >>= λ p. k >>= λ q. ok (g p.0 q.0, p.1 + q.1)

  pub both-eq-ok :
      (g : A → B → C) (m : Result E (A × ℕ)) (k : Result E (B × ℕ)) (r : C) (n : ℕ)
      → both g m k ≡ ok (r, n)
      → (a : A) × (i : ℕ) × (b : B) × (j : ℕ) × (m ≡ ok (a, i))
        × (k ≡ ok (b, j))
        × (r ≡ g a b)
        × (n ≡ i + j)
  both-eq-ok g (ok (a, i)) (ok (b, j)) r n e = (a, i, b, j, refl, refl, cc, cc)
  both-eq-ok g (ok (a, i)) (err x) r n e = absurd (cc)
  both-eq-ok g (err x) k r n e = absurd (cc)

  pub both-of_zero :
      (g : A → B → C) {m : Result E (A × ℕ)} {k : Result E (B × ℕ)} {a : A} {b : B}
      → m ≡ ok (a, 0)
      → k ≡ ok (b, 0)
      → both g m k ≡ ok (g a b, 0)
  both-of_zero g p q = rw (p, q)

module _ {ℓ κ ι} {E : Type ℓ} {A : Type κ} {B : Type ι} where
  -- A value and a count, with the value put into its place.
  abbrev pub counted : (A → B) → Result E (A × ℕ) → Result E (B × ℕ)
  counted g m = m >>= λ p. ok (g p.0, p.1)

  pub counted-eq-ok :
      (g : A → B) (m : Result E (A × ℕ)) (r : B) (n : ℕ)
      → counted g m ≡ ok (r, n)
      → (a : A) × (m ≡ ok (a, n)) × (r ≡ g a)
  counted-eq-ok g (ok (a, i)) r n e = (a, cc, cc)
  counted-eq-ok g (err x) r n e = absurd (cc)

-- A loop that stops at the first error.
module _ {ℓ κ ι} {E : Type ℓ} {A : Type κ} {B : Type ι} where
  unfoldable pub traverse : (A → Result E B) → List A → Result E (List B)
  traverse f [] = ok []
  traverse f (a ∷ xs) = f a >>= λ b. traverse f xs >>= λ ys. ok (b ∷ ys)

  pub traverse-Paired :
      (f : A → Result E B) (xs : List A) (ys : List B)
      → traverse f xs ≡ ok ys
      → Paired (λ a b. f a ≡ ok b) xs ys
  unfolding traverse
  traverse-Paired f [] ys e = let s : [] ≡ ys = cc in subst (Paired (λ a b. f a ≡ ok b) []) s tt
  traverse-Paired f (a ∷ xs) ys e =
      let (b, eb, e2) = >>=-eq-ok (f a) _ e in
      let (ys2, eys, el) = >>=-eq-ok (traverse f xs) _ e2 in
      let s : b ∷ ys2 ≡ ys = cc in
      subst (Paired (λ a b. f a ≡ ok b) (a ∷ xs)) s (eb, traverse-Paired f xs ys2 eys)
