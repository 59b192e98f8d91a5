-- ===== src/RingGrowing.antt =====
-- pkg/util/buffer/buffer.go: RingGrowing. An index or a slice out of range and a remainder by zero
-- panic. A place of the buffer holds nil or a value.
mod Copies
mod Histories
mod Refine
mod Tests
use flowline.Base.{
  ℕ, ◌+◌, ◌-◌, ◌*◌, ◌%◌, min, Bool, ◌&&◌, ltb, leb, ◌==◌, length, get_elem?, set, take, drop,
  replicate, List, [], ◌∷◌, ◌++◌, Option, none, some, if◌then◌else◌,
}
use flowline.Base.Run.{Run, panic, ok, ◌>>=◌}

pub record RingGrowing {ℓ} (V : Type ℓ) : Type ℓ where
  pub buffer_data : List (Option V)
  pub n : ℕ
  pub beg : ℕ
  pub readable : ℕ

-- Go's remainder.
unfoldable pub modulo : ℕ → ℕ → Run ℕ
modulo a n = if n == 0 then panic else ok (a % n)

module _ {ℓ} {A : Type ℓ} where
  -- `l[low:high]`
  unfoldable pub slice : List A → ℕ → ℕ → Run (List A)
  slice l low high =
      if leb low high && leb high (length l) then ok (take (high - low) (drop low l)) else panic

  -- Go's copy, of a list onto the first elements of another.
  unfoldable pub copy : List A → List A → List A
  copy [] src = []
  copy (d ∷ dst) [] = d ∷ dst
  copy (d ∷ dst) (s ∷ src) = s ∷ copy dst src

  -- A copy onto the elements from an index on.
  unfoldable pub copy_from : ℕ → List A → List A → List A
  copy_from i dst src = take i dst ++ copy (drop i dst) src

module _ {ℓ} {V : Type ℓ} where
  -- NewRingGrowing
  unfoldable pub new_ring_growing : ℕ → RingGrowing V
  new_ring_growing initial_size = record {
    buffer_data = replicate initial_size none;
    n = initial_size;
    beg = 0;
    readable = 0;
  }

  -- ReadOne; the test for the last element is free of the subtraction.
  unfoldable pub read_one : RingGrowing V → Run (RingGrowing V × Option (Option V))
  read_one r = if r.readable == 0 then ok (r, none) else elim (get_elem? r.buffer_data r.beg) [
    | none ↦ panic
    | some element ↦ ok (
      record r {
        buffer_data = set r.buffer_data r.beg none;
        beg = if r.beg + 1 == r.n then 0 else r.beg + 1;
        readable = r.readable - 1;
      },
      some element,
    )
  ]

  -- The elements in order, in a new array of twice the size.
  unfoldable pub grown_data : RingGrowing V → Run (List (Option V))
  grown_data r =
      let new_data = replicate (r.n * 2) none in
      let to = r.beg + r.readable in
      if leb to r.n
      then (slice r.buffer_data r.beg to >>= λ all. ok (copy new_data all))
      else (slice r.buffer_data r.beg (length r.buffer_data) >>= λ first. modulo to r.n >>= λ high.
          slice r.buffer_data 0 high >>= λ second.
          ok (copy_from (min (length new_data) (length first)) (copy new_data first) second))

  unfoldable pub grow : RingGrowing V → Run (RingGrowing V)
  grow r = grown_data r >>= λ copied. ok (record r { buffer_data = copied; n = r.n * 2; beg = 0 })

  -- The write at the end of a buffer that has room.
  unfoldable pub put : RingGrowing V → Option V → Run (RingGrowing V)
  put r element = modulo (r.readable + r.beg) r.n >>= λ i.
      if ltb i (length r.buffer_data)
      then ok (record r { buffer_data = set r.buffer_data i element; readable = r.readable + 1 })
      else panic

  -- WriteOne
  unfoldable pub write_one : RingGrowing V → Option V → Run (RingGrowing V)
  write_one r element = (if r.readable == r.n then grow r else ok r) >>= λ g. put g element
