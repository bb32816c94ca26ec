-- ===== src/Prelude/Dicts.antt =====
-- A Python dict as an association list, in insertion order.
use mathlib.Core.Path.{◌≡◌, refl}
use mathlib.Core.Logic.{◌≢◌}
use mathlib.Core.Bool.{Bool, true, false}
use mathlib.Core.Option.{Option, none, some}
use mathlib.Core.List.{List, [], ◌∷◌}
use native.Mathlib.Omega.{arith}
use openwallstreet.Prelude.Tests.{KeyEq, ◌==◌, if◌then◌else◌, same_refl}

abbrev pub Dict {ℓ κ} : Type ℓ → Type κ → Type (ℓ ⊔ κ)
Dict K V = List (K × V)

module _ {ℓ κ} {K : Type ℓ} {V : Type κ} ⦃e : KeyEq K⦄ where
  -- `d.get(k)`
  unfoldable pub lookup : K → Dict K V → Option V
  lookup k [] = none
  lookup k ((j, v) ∷ d) = if j == k then some v else lookup k d

  -- `d[k] = v`: a key that is present keeps its place
  unfoldable pub insert : K → V → Dict K V → Dict K V
  insert k v [] = (k, v) ∷ []
  insert k v ((j, w) ∷ d) = if j == k then (j, v) ∷ d else (j, w) ∷ insert k v d

  -- `d.get(k, default)`
  unfoldable pub get_or : K → V → Dict K V → V
  unfolding lookup
  get_or k default d = elim (lookup k d) [ none ↦ default | some v ↦ v ]

  -- `k in d`
  unfoldable pub contains : K → Dict K V → Bool
  unfolding lookup
  contains k d = elim (lookup k d) [ none ↦ false | some _ ↦ true ]

  -- Every entry of the key is gone; a Python dict has one at most.
  unfoldable pub erase : K → Dict K V → Dict K V
  erase k [] = []
  erase k ((j, w) ∷ d) = let rest = erase k d in if j == k then rest else (j, w) ∷ rest

  pub lookup-insert :
      (k j : K) (v : V) (d : Dict K V)
      → lookup j (insert k v d) ≡ (if k == j then some v else lookup j d)
  unfolding lookup insert
  lookup-insert k j v [] = refl
  lookup-insert k j v ((i, w) ∷ d) =
      ground (arith, e.same_iff k j, e.same_iff i k, e.same_iff i j, lookup-insert k j v d)

  pub lookup-insert_self : (k : K) (v : V) (d : Dict K V) → lookup k (insert k v d) ≡ some v
  lookup-insert_self k v d = rw (lookup-insert k k v d, same_refl k)

  pub lookup-insert_ne :
      (k j : K) (v : V) (d : Dict K V) → k ≢ j → lookup j (insert k v d) ≡ lookup j d
  lookup-insert_ne k j v d ne = rw (lookup-insert k j v d) (ground (arith, e.same_iff k j))

  pub lookup-erase :
      (k j : K) (d : Dict K V) → lookup j (erase k d) ≡ (if k == j then none else lookup j d)
  unfolding lookup erase
  lookup-erase k j [] = ground (arith, e.same_iff k j)
  lookup-erase k j ((i, w) ∷ d) =
      ground (arith, e.same_iff k j, e.same_iff i k, e.same_iff i j, lookup-erase k j d)

  pub erase-insert_new :
      (k : K) (v : V) (d : Dict K V) → contains k d ≡ false → erase k (insert k v d) ≡ d
  unfolding contains lookup erase insert
  erase-insert_new k v [] h = rw (same_refl k)
  erase-insert_new k v ((i, w) ∷ d) h = ground (arith, erase-insert_new k v d)

  pub erase-new : (k : K) (d : Dict K V) → contains k d ≡ false → erase k d ≡ d
  unfolding contains lookup erase
  erase-new k [] h = refl
  erase-new k ((i, w) ∷ d) h = ground (arith, erase-new k d)

  pub erase-insert_ne :
      (k j : K) (v : V) (d : Dict K V)
      → (k == j) ≡ false
      → erase k (insert j v d) ≡ insert j v (erase k d)
  unfolding erase insert
  erase-insert_ne k j v [] ne = ground (arith, e.same_iff k j, e.same_iff j k)
  erase-insert_ne k j v ((i, w) ∷ d) ne =
      ground (arith, e.same_iff k j, e.same_iff i k, e.same_iff i j, erase-insert_ne k j v d)
