-- ===== src/Base/Keys/Sets.antt =====
-- A Go `map[T]struct{}`, as a list without repetition.
use flowline.Base.Keys.Same.{Key, same, same_eq}
use flowline.Base.Tests.{if◌then◌else◌, Bool-cases}
use mathlib.Core.Logic.{inl, inr}
use mathlib.Core.Path.{◌≡◌, refl, ap}
use mathlib.Core.Bool.{Bool, true, false, ◌||◌}
use mathlib.Core.List.{List, [], ◌∷◌, ◌++◌}
use Prim.Native.Nat.{◌+◌, ◌<◌}
use flowline.Base.Lists.{length, length-append}
use native.Mathlib.Omega.{arith}

module _ {ℓ} {A : Type ℓ} ⦃key : Key A⦄ where
  unfoldable pub has : List A → A → Bool
  has [] x = false
  has (y ∷ s) x = if same y x then true else has s x

  unfoldable pub remove : List A → A → List A
  remove [] x = []
  remove (y ∷ s) x = if same y x then remove s x else y ∷ remove s x

  unfoldable pub insert : List A → A → List A
  insert s x = if has s x then s else s ++ x ∷ []

  abbrev pub Distinct : List A → Type 0
  Distinct [] = Unit {0}
  Distinct (x ∷ s) = (has s x ≡ false) × Distinct s

  pub has-append : (s t : List A) (x : A) → has (s ++ t) x ≡ has s x || has t x
  unfolding has
  has-append [] t x = refl
  has-append (y ∷ s) t x = ground (arith, has-append s t x)

  pub has-remove :
      (s : List A) (x y : A) → has (remove s x) y ≡ (if same x y then false else has s y)
  unfolding has remove
  has-remove [] x y = ground arith
  has-remove (z ∷ s) x y = ground (arith, has-remove s x y)

  pub has-insert :
      (s : List A) (x y : A) → has (insert s x) y ≡ (if same x y then true else has s y)
  unfolding has insert
  has-insert s x y = ground (arith, has-append s (x ∷ []) y)

  pub remove-Distinct : (s : List A) (x : A) → Distinct s → Distinct (remove s x)
  unfolding remove
  remove-Distinct [] x d = tt
  remove-Distinct (y ∷ s) x d = ground (arith, has-remove s x y, remove-Distinct s x d.1)

  pub append_new-Distinct :
      (s : List A) (x : A) → Distinct s → has s x ≡ false → Distinct (s ++ x ∷ [])
  unfolding has
  append_new-Distinct [] x d h = (refl, tt)
  append_new-Distinct (y ∷ s) x d h =
      ground (arith, has-append s (x ∷ []) y, append_new-Distinct s x d.1)

  pub insert-Distinct : (s : List A) (x : A) → Distinct s → Distinct (insert s x)
  unfolding insert
  insert-Distinct s x d = ground (arith, append_new-Distinct s x d)

  pub length-remove :
      (s : List A) (x : A)
      → Distinct s
      → length (remove s x) + (if has s x then 1 else 0) ≡ length s
  unfolding remove has
  length-remove [] x d = omega arith
  length-remove (y ∷ s) x d = ground (arith, length-remove s x d.1, d.0)

  pub length-insert :
      (s : List A) (x : A) → length (insert s x) ≡ length s + (if has s x then 0 else 1)
  unfolding insert
  length-insert s x = ground (arith, length-append s (x ∷ []))

  pub has-nonempty : (s : List A) (x : A) → has s x ≡ true → 0 < length s
  unfolding has
  has-nonempty [] x h = cc
  has-nonempty (y ∷ s) x h = omega arith

  -- A key of the set is not one that is not in it.
  pub has_apart : (s : List A) (x y : A) → has s x ≡ false → has s y ≡ true → same x y ≡ false
  has_apart s x y out_ in_ = elim (Bool-cases (same x y)) [
    | inl e ↦ let it = ap (has s) (same_eq x y e) in absurd (ground (arith, it))
    | inr e ↦ e
  ]
