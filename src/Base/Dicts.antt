-- ===== src/Base/Dicts.antt =====
-- Python's `dict`: an association list in order of insertion. A write to a key that is there
-- keeps its place.
use mathlib.Core.Path.{◌≡◌, refl}
use mathlib.Core.Option.{Option, none, some}
use mathlib.Core.List.{List, [], ◌∷◌}
use native.Mathlib.Omega.{arith}
use ufoundry.Base.Tests.{Eq, ◌==◌, if◌then◌else◌}

abbrev pub Dict {ℓ κ} : Type ℓ → Type κ → Type (ℓ ⊔ κ)
Dict K V = List (K × V)

module _ {ℓ κ} {K : Type ℓ} {V : Type κ} ⦃e : Eq K⦄ where
  -- d.get(k)
  unfoldable pub lookup : K → Dict K V → Option V
  lookup k [] = none
  lookup k ((j, v) ∷ d) = if j == k then some v else lookup k d

  -- d[k] = v
  unfoldable pub store : K → V → Dict K V → Dict K V
  store k v [] = (k, v) ∷ []
  store k v ((j, w) ∷ d) = if j == k then (j, v) ∷ d else (j, w) ∷ store k v d

  -- d.pop(k, None), del d[k]
  unfoldable pub without : K → Dict K V → Dict K V
  without k [] = []
  without k ((j, w) ∷ d) = let rest = without k d in if j == k then rest else (j, w) ∷ rest

  pub lookup-store :
      (k j : K) (v : V) (d : Dict K V)
      → lookup j (store k v d) ≡ (if k == j then some v else lookup j d)
  unfolding lookup store
  lookup-store k j v [] = refl
  lookup-store k j v ((i, w) ∷ d) =
      ground (arith, e.beq_iff k j, e.beq_iff i k, e.beq_iff i j, lookup-store k j v d)

  pub lookup-without :
      (k j : K) (d : Dict K V) → lookup j (without k d) ≡ (if k == j then none else lookup j d)
  unfolding lookup without
  lookup-without k j [] = ground arith
  lookup-without k j ((i, w) ∷ d) =
      ground (arith, e.beq_iff k j, e.beq_iff i k, e.beq_iff i j, lookup-without k j d)

  pub lookup-store_self : (k : K) (v : V) (d : Dict K V) → lookup k (store k v d) ≡ some v
  lookup-store_self k v d = ground (arith, lookup-store k k v d, e.beq_iff k k)

  pub lookup-without_self : (k : K) (d : Dict K V) → lookup k (without k d) ≡ none
  lookup-without_self k d = ground (arith, lookup-without k k d, e.beq_iff k k)
