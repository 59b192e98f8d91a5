-- ===== src/RingGrowing/Tests.antt =====
-- A buffer of numbers that grows from two places.
use flowline.Base.{ℕ, ◌≡◌, refl, List, [], ◌∷◌, none, some, arith}
use flowline.Base.Run.{panic, ok}
use flowline.RingGrowing.{
  new_ring_growing, write_one, put, grow, grown_data, read_one, modulo, slice, copy, copy_from,
}
use flowline.RingGrowing.Histories.{Call, write, read, run_ring, run_queue, ring_refines}

program : Unit {0}
unfolding new_ring_growing write_one put grow grown_data read_one modulo slice copy copy_from
    run_ring run_queue
program = tt

-- The third write finds a full buffer whose first element is in the second place.
abbrev calls : List (Call ℕ)
calls =
    write (some 1)
    ∷ write (some 2)
    ∷ read
    ∷ write (some 3)
    ∷ write (some 4)
    ∷ read
    ∷ read
    ∷ read
    ∷ read
    ∷ []

results :
    run_queue [] calls ≡ some (some 1) ∷ some (some 2) ∷ some (some 3) ∷ some (some 4) ∷ none ∷ []
unfolding program
results = refl

ring_refines_example : run_ring (new_ring_growing 2) calls ≡ ok (run_queue [] calls)
ring_refines_example = ring_refines 2 calls (omega arith)

-- A buffer of size 0 does not grow: a write divides by zero.
zero_size_panics : write_one {V = ℕ} (new_ring_growing 0) (some 1) ≡ panic
unfolding program
zero_size_panics = refl
