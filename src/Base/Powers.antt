-- ===== src/Base/Powers.antt =====
-- Powers of two.
use Prim.Native.Nat.{ℕ, zero, suc, ◌+◌, ◌*◌, ◌^◌, ◌≤◌, ◌<◌, min}
use mathlib.Core.Path.{◌≡◌, refl}
use native.Mathlib.Nat.{pow-suc}
use mathlib.Core.Logic.{inl, inr}
use native.Mathlib.Omega.{arith}
use flowline.Base.Tests.{ltb, Bool-cases}

pow_pos : (n : ℕ) → 0 < 2 ^ n
pow_pos zero = omega arith
pow_pos (suc n) = omega (arith, pow_pos n, pow-suc 2 n)

pub double : (d n : ℕ) → (d + d) * 2 ^ n ≡ d * 2 ^ suc n
double d n = grind (arith, pow-suc 2 n)

pub grows : (d n : ℕ) → d ≤ d * 2 ^ n
grows d n = grind (arith, pow_pos n)

-- Doubling under a bound.
pub min_double : (d n max : ℕ) → min (min (d + d) max * 2 ^ n) max ≡ min (d * 2 ^ suc n) max
min_double d n max = elim (Bool-cases (ltb max (d + d))) [
  | inl far ↦
      let capped : min (d + d) max ≡ max = ground arith in
      rw capped (ground (arith, grows max n, grows (d + d) n, double d n))
  | inr near ↦ let free : min (d + d) max ≡ d + d = ground arith in rw (free, double d n) refl
]
