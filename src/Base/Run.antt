-- ===== src/Base/Run.antt =====
-- How a Go call ends: it returns, it panics, or the model's fuel runs out.
use mathlib.Core.Path.{◌≡◌, refl}
use mathlib.Core.Bool.{Bool, true, false}
use flowline.Base.Tests.{if◌then◌else◌}

pub data Run {ℓ} (V : Type ℓ) : Type ℓ where
  out_of_fuel panic : Run V
  ok : V → Run V

infixl 5 ◌>>=◌
abbrev pub ◌>>=◌ {ℓ κ} : {V : Type ℓ} {W : Type κ} → Run V → (V → Run W) → Run W
out_of_fuel >>= rest = out_of_fuel
panic >>= rest = panic
ok value >>= rest = rest value

-- The call returns a value that satisfies `Post`.
pub data Returns {ℓ κ} {V : Type ℓ} (Post : V → Type κ) : Run V → Type (ℓ ⊔ κ) where
  returns : {value : V} → Post value → Returns Post (ok value)

module _ {ℓ κ} {V : Type ℓ} {Post : V → Type κ} where
  pub Returns-ok : {value : V} → Returns Post (ok value) → Post value
  Returns-ok (returns holds) = holds

  pub Returns-value :
      {call : Run V} → Returns Post call → (value : V) × (call ≡ ok value) × Post value
  Returns-value (returns holds) = (_, refl, holds)

  -- A test in front of two calls.
  pub Returns-if :
      (test : Bool) {whole rest : Run V}
      → (test ≡ true → Returns Post whole)
      → (test ≡ false → Returns Post rest)
      → Returns Post (if test then whole else rest)
  Returns-if false _ otherwise = otherwise refl
  Returns-if true then_ _ = then_ refl

  module _ {κ'} where
    pub Returns-weaken :
        {Weaker : V → Type κ'} {call : Run V}
        → Returns Post call
        → ((value : V) → Post value → Weaker value)
        → Returns Weaker call
    Returns-weaken (returns holds) imply = returns (imply _ holds)

    -- A call, and what is done with its value.
    pub Returns-bind {ℓ'} :
        {W : Type ℓ'} {Last : W → Type κ'} {call : Run V} {rest : V → Run W}
        → Returns Post call
        → ((value : V) → Post value → Returns Last (rest value))
        → Returns Last (call >>= rest)
    Returns-bind (returns holds) next = next _ holds
