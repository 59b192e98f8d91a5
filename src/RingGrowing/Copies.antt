-- ===== src/RingGrowing/Copies.antt =====
-- Slices, copies and indices that wrap around.
use flowline.Base.{
  ℕ, zero, suc, ◌+◌, ◌-◌, ◌%◌, ◌≤◌, ◌<◌, ◌≡◌, refl, ap, ◌∙◌, true, false, ◌&&◌, ltb, leb, length,
  get_elem?, take, drop, length-take, length-drop, length-append, get_elem?-take, get_elem?-drop,
  get_elem?-append, List, [], ◌∷◌, if◌then◌else◌, arith, Bool-cases, inl, inr,
}
use native.Mathlib.Nat.{mod-eq_of_lt, mod-eq-sub-mod}
use flowline.Base.Run.{ok}
use flowline.RingGrowing.{modulo, slice, copy, copy_from}

-- The remainder of an index that passes the end at most once.
pub wrap : (a n : ℕ) → a < n + n → a % n ≡ (if ltb a n then a else a - n)
wrap a n h = elim (Bool-cases (ltb a n)) [
  | inl within ↦ let lt : a < n = ground arith in rw within (mod-eq_of_lt lt)
  | inr beyond ↦
      let ge : n ≤ a = ground arith in
      let lt : a - n < n = omega arith in rw beyond (mod-eq-sub-mod ge ∙ mod-eq_of_lt lt)
]

pub modulo_lem : (a n : ℕ) → 0 < n → modulo a n ≡ ok (a % n)
unfolding modulo
modulo_lem a n h = ground arith

module _ {ℓ} {A : Type ℓ} where
  pub slice_lem :
      (l : List A) (low high : ℕ)
      → low ≤ high
      → high ≤ length l
      → slice l low high ≡ ok (take (high - low) (drop low l))
  unfolding slice
  slice_lem l low high h k =
      let inside : leb low high && leb high (length l) ≡ true = ground arith in
      rw (inside, slice) refl

  pub length-copy : (dst src : List A) → length (copy dst src) ≡ length dst
  unfolding copy
  length-copy [] src = refl
  length-copy (d ∷ dst) [] = refl
  length-copy (d ∷ dst) (s ∷ src) = ap suc (length-copy dst src)

  pub get_elem?-copy :
      (dst src : List A) (i : ℕ)
      → length src ≤ length dst
      → get_elem? (copy dst src) i
        ≡ (if ltb i (length src) then get_elem? src i else get_elem? dst i)
  unfolding copy
  get_elem?-copy [] [] i h = ground arith
  get_elem?-copy [] (s ∷ src) i h = absurd (omega arith)
  get_elem?-copy (d ∷ dst) [] i h = ground arith
  get_elem?-copy (d ∷ dst) (s ∷ src) zero h = ground arith
  get_elem?-copy (d ∷ dst) (s ∷ src) (suc i) h =
      let less : length src ≤ length dst = omega arith in
      ground (arith, get_elem?-copy dst src i less)

  pub length-copy_from : (i : ℕ) (dst src : List A) → length (copy_from i dst src) ≡ length dst
  unfolding copy_from
  length-copy_from i dst src = omega (
    arith,
    length-append (take i dst) (copy (drop i dst) src),
    length-take i dst,
    length-copy (drop i dst) src,
    length-drop i dst,
  )

  pub copy-early :
      (dst src : List A) (i : ℕ)
      → length src ≤ length dst
      → i < length src
      → get_elem? (copy dst src) i ≡ get_elem? src i
  copy-early dst src i h k =
      let inside : ltb i (length src) ≡ true = ground arith in
      rw inside at (get_elem?-copy dst src i h)

  pub copy_from-before :
      (c : ℕ) (dst src : List A) (i : ℕ)
      → c ≤ length dst
      → i < c
      → get_elem? (copy_from c dst src) i ≡ get_elem? dst i
  unfolding copy_from
  copy_from-before c dst src i h k =
      let cut : length (take c dst) ≡ c = omega (arith, length-take c dst) in
      let inside : ltb i (length (take c dst)) ≡ true = ground arith in
      let below : ltb i c ≡ true = ground arith in
      (rw inside at (get_elem?-append (take c dst) (copy (drop c dst) src) i))
      ∙ (rw below at (get_elem?-take c dst i))

  pub copy_from-after :
      (c : ℕ) (dst src : List A) (i : ℕ)
      → c + length src ≤ length dst
      → i < length src
      → get_elem? (copy_from c dst src) (c + i) ≡ get_elem? src i
  unfolding copy_from
  copy_from-after c dst src i h k =
      let cut : length (take c dst) ≡ c = omega (arith, length-take c dst) in
      let outside : ltb (c + i) (length (take c dst)) ≡ false = ground arith in
      let rest : c + i - length (take c dst) ≡ i = omega arith in
      let room : length src ≤ length (drop c dst) = omega (arith, length-drop c dst) in
      (rw (outside, rest) at (get_elem?-append (take c dst) (copy (drop c dst) src) (c + i)))
      ∙ copy-early (drop c dst) src i room k

  -- What a slice holds.
  pub slice-place :
      (l : List A) (low count i : ℕ)
      → i < count
      → get_elem? (take count (drop low l)) i ≡ get_elem? l (low + i)
  slice-place l low count i h =
      let below : ltb i count ≡ true = ground arith in
      (rw below at (get_elem?-take count (drop low l) i)) ∙ get_elem?-drop low l i

  pub slice-length :
      (l : List A) (low count : ℕ)
      → low + count ≤ length l
      → length (take count (drop low l)) ≡ count
  slice-length l low count h = omega (arith, length-take count (drop low l), length-drop low l)
