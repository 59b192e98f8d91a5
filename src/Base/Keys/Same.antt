-- ===== src/Base/Keys/Same.antt =====
-- Keys with decidable equality: Go's `==` on the keys of a map.
use Prim.Native.Nat.{ℕ}
use Prim.Native.String.{String}
use native.Mathlib.Decide.{ℕ_discrete}
use text.Mathlib.Text.{◌==◌ as str_eq}
use text.Mathlib.TextEquality.{eq_iff}
use mathlib.Core.Path.{◌≡◌, refl}
use native.Mathlib.Omega.{arith}
use mathlib.Core.Bool.{Bool, true, false}

pub record Key {ℓ} (A : Type ℓ) : Type ℓ where
  pub same? : (x y : A) → Dec (x ≡ y)

infix 50 ◌≟◌
abbrev pub ◌≟◌ {ℓ} : {A : Type ℓ} ⦃key : Key A⦄ (x y : A) → Dec (x ≡ y)
◌≟◌ ⦃key⦄ = key.same?

-- A decision as a test.
abbrev pub same {ℓ} : {A : Type ℓ} ⦃key : Key A⦄ → A → A → Bool
same x y = elim (x ≟ y) [ yes _ ↦ true | no _ ↦ false ]

text_cases : (s t : String) (b : Bool) → str_eq s t ≡ b → Dec (s ≡ t)
text_cases s t true e = yes ((eq_iff s t).0 e)
text_cases s t false e = no (λ p. cc ((eq_iff s t).1 p))

unfoldable pub text_same : (s t : String) → Dec (s ≡ t)
unfolding text_cases
text_same s t = text_cases s t (str_eq s t) refl

instance abbrev pub nat_key : Key ℕ
nat_key = record { same? = ℕ_discrete }

instance abbrev pub text_key : Key String
text_key = record { same? = text_same }

module _ {ℓ} {A : Type ℓ} ⦃key : Key A⦄ where
  pub same_eq : (x y : A) → same x y ≡ true → x ≡ y
  same_eq x y e = ground arith

  pub same_refl : (x : A) → same x x ≡ true
  same_refl x = ground arith
