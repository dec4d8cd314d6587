-- ===== src/Common/Map.antt =====
-- A Go map as an association list, with the laws of look-up.
use mathlib.Core.Path.{◌≡◌, refl}
use mathlib.Core.Option.{Option, none, some}
use mathlib.Core.List.{List, [], ◌∷◌}
use native.Mathlib.Omega.{arith}
use network_services_operato.Common.Tests.{if◌then◌else◌, Eq, ◌==◌}

module _ {ℓ κ} {K : Type ℓ} {W : Type κ} ⦃e : Eq K⦄ where
  -- v, ok := m[k]
  unfoldable pub lookup : K → List (K × W) → Option W
  lookup key [] = none
  lookup key ((other, v) ∷ m) = if other == key then some v else lookup key m

  -- m[k] = v
  unfoldable pub insert : K → W → List (K × W) → List (K × W)
  insert key v [] = (key, v) ∷ []
  insert key v ((other, old) ∷ m) =
      if other == key then (key, v) ∷ m else (other, old) ∷ insert key v m

  -- delete(m, key)
  unfoldable pub erase : K → List (K × W) → List (K × W)
  erase key [] = []
  erase key ((other, old) ∷ m) =
      let rest = erase key m in if other == key then rest else (other, old) ∷ rest

  pub lookup-insert :
      (key other : K) (v : W) (m : List (K × W))
      → lookup other (insert key v m) ≡ (if key == other then some v else lookup other m)
  unfolding lookup insert
  lookup-insert key other v [] = refl
  lookup-insert key other v ((i, old) ∷ m) = ground (
    arith,
    e.same_iff key other,
    e.same_iff i key,
    e.same_iff i other,
    lookup-insert key other v m,
  )

  pub lookup-erase :
      (key other : K) (m : List (K × W))
      → lookup other (erase key m) ≡ (if key == other then none else lookup other m)
  unfolding lookup erase
  lookup-erase key other [] = ground arith
  lookup-erase key other ((i, old) ∷ m) =
      ground (
        arith,
        e.same_iff key other,
        e.same_iff i key,
        e.same_iff i other,
        lookup-erase key other m,
      )
