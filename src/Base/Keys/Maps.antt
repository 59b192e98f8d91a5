-- ===== src/Base/Keys/Maps.antt =====
-- A Go map, as an association list. The order in which Go ranges over it is not specified.
use flowline.Base.Keys.Same.{Key, same}
use flowline.Base.Keys.Sets.{has, Distinct}
use flowline.Base.Tests.{if◌then◌else◌, is_some}
use mathlib.Core.Path.{◌≡◌, refl}
use mathlib.Core.List.{List, [], ◌∷◌, map}
use mathlib.Core.Option.{Option, none, some}
use native.Mathlib.Omega.{arith}

module _ {ℓ κ} {K : Type ℓ} {V : Type κ} ⦃key : Key K⦄ where
  unfoldable pub lookup : K → List (K × V) → Option V
  lookup k [] = none
  lookup k ((j, v) ∷ m) = if same j k then some v else lookup k m

  -- `m[k] = v`
  unfoldable pub store : K → V → List (K × V) → List (K × V)
  store k v [] = (k, v) ∷ []
  store k v ((j, w) ∷ m) = if same j k then (k, v) ∷ m else (j, w) ∷ store k v m

  -- `delete(m, k)`
  unfoldable pub erase : K → List (K × V) → List (K × V)
  erase k [] = []
  erase k ((j, v) ∷ m) = if same j k then erase k m else (j, v) ∷ erase k m

  abbrev pub keys : List (K × V) → List K
  keys = map (λ e. e.0)

  pub lookup-store :
      (k j : K) (v : V) (m : List (K × V))
      → lookup j (store k v m) ≡ (if same k j then some v else lookup j m)
  unfolding lookup store
  lookup-store k j v [] = refl
  lookup-store k j v ((i, w) ∷ m) = ground (arith, lookup-store k j v m)

  pub lookup-erase :
      (k j : K) (m : List (K × V)) → lookup j (erase k m) ≡ (if same k j then none else lookup j m)
  unfolding lookup erase
  lookup-erase k j [] = ground arith
  lookup-erase k j ((i, w) ∷ m) = ground (arith, lookup-erase k j m)

  pub has-keys : (k : K) (m : List (K × V)) → has (keys m) k ≡ is_some (lookup k m)
  unfolding lookup has
  has-keys k [] = refl
  has-keys k ((i, w) ∷ m) = ground (arith, has-keys k m)

  pub keys-store-Distinct :
      (k : K) (v : V) (m : List (K × V)) → Distinct (keys m) → Distinct (keys (store k v m))
  unfolding store has
  keys-store-Distinct k v [] d = (refl, tt)
  keys-store-Distinct k v ((i, w) ∷ m) d = ground (
    arith,
    keys-store-Distinct k v m d.1,
    has-keys i (store k v m),
    lookup-store k i v m,
    has-keys i m,
  )

  pub keys-erase-Distinct :
      (k : K) (m : List (K × V)) → Distinct (keys m) → Distinct (keys (erase k m))
  unfolding erase
  keys-erase-Distinct k [] d = tt
  keys-erase-Distinct k ((i, w) ∷ m) d =
      ground (
        arith,
        keys-erase-Distinct k m d.1,
        has-keys i (erase k m),
        lookup-erase k i m,
        has-keys i m,
      )
