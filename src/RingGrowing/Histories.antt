-- ===== src/RingGrowing/Histories.antt =====
-- Any history of writes and reads of the buffer against a queue.
use flowline.Base.{
  ℕ, suc, ◌+◌, ◌-◌, ◌%◌, ◌<◌, ◌≡◌, refl, ap, ◌∙◌, true, false, ◌==◌, length, get_elem?, length-set,
  get_elem?-set, length-replicate, List, [], ◌∷◌, ◌++◌, Option, none, some, if◌then◌else◌, arith,
  Bool-cases, inl, inr,
}
use flowline.Base.Run.{Run, ok, ◌>>=◌, Returns, returns, Returns-bind, Returns-value}
use flowline.RingGrowing.{RingGrowing, new_ring_growing, read_one, write_one}
use flowline.RingGrowing.Copies.{wrap}
use flowline.RingGrowing.Refine.{Represents, put_lem, grow_lem}

-- A call of WriteOne or of ReadOne.
pub data Call {ℓ} (V : Type ℓ) : Type ℓ where
  write : Option V → Call V
  read : Call V

module _ {ℓ} {V : Type ℓ} where
  write_lem :
      (r : RingGrowing V) (q : List (Option V)) (element : Option V)
      → Represents r q
      → Returns (λ d. Represents d (q ++ element ∷ [])) (write_one r element)
  unfolding write_one
  write_lem r q element v = elim (Bool-cases (r.readable == r.n)) [
    | inl full ↦
        rw full (Returns-bind (grow_lem r q v (ground arith)) (λ g w. put_lem g q element w.0 w.1))
    | inr room ↦ rw room (put_lem r q element v (ground (arith, v.fits)))
  ]

  read_empty : (r : RingGrowing V) → Represents r [] → read_one r ≡ ok (r, none)
  unfolding read_one
  read_empty r v =
      let empty : (r.readable == 0) ≡ true = ground (arith, v.count) in rw (empty, read_one) refl

  read_lem :
      (r : RingGrowing V) (x : Option V) (q : List (Option V))
      → Represents r (x ∷ q)
      → Returns (λ s. (s.1 ≡ some x) × Represents s.0 q) (read_one r)
  unfolding read_one
  read_lem r x q v =
      let some_ : (r.readable == 0) ≡ false = ground (arith, v.count) in
      let start : (r.beg + 0) % r.n ≡ r.beg =
        ground (arith, wrap (r.beg + 0) r.n (omega (arith, v.beg_within)), v.beg_within) in
      let there : get_elem? r.buffer_data r.beg ≡ some x =
        rw start at (v.places 0 (ground (arith, v.count))) in
      let next : ℕ = if r.beg + 1 == r.n then 0 else r.beg + 1 in
      let next_within : next < r.n = ground (arith, v.beg_within) in
      rw (some_, there, read_one)
        (returns (
          refl,
          record {
            size = length-set r.buffer_data r.beg none ∙ v.size;
            beg_within = next_within;
            fits = omega (arith, v.fits);
            count = omega (arith, v.count);
            places = λ i h.
                let within : i < r.readable - 1 = h in
                let from = wrap (r.beg + suc i) r.n (omega (arith, v.beg_within, v.fits)) in
                let to = wrap (next + i) r.n (omega (arith, v.fits)) in
                let moved : (next + i) % r.n ≡ (r.beg + suc i) % r.n =
                  ground (arith, from, to, v.beg_within, v.fits) in
                let apart : (r.beg == (next + i) % r.n) ≡ false =
                  ground (arith, from, moved, v.beg_within, v.fits) in
                let inside : r.beg < length r.buffer_data = omega (arith, v.size, v.beg_within) in
                (rw apart at (get_elem?-set r.buffer_data r.beg ((next + i) % r.n) none inside))
                ∙ ap (get_elem? r.buffer_data) moved
                ∙ v.places (suc i) (omega arith);
          },
        ))

  new-Represents : (size : ℕ) → 0 < size → Represents {V = V} (new_ring_growing size) []
  unfolding new_ring_growing
  new-Represents size positive = record {
    size = length-replicate size none;
    beg_within = positive;
    fits = omega arith;
    count = refl;
    places = λ i h. let within : i < 0 = h in absurd (omega arith);
  }

  -- The results of the reads of a history, on the buffer and on a queue.
  unfoldable pub run_ring : RingGrowing V → List (Call V) → Run (List (Option (Option V)))
  run_ring r [] = ok []
  run_ring r (write element ∷ calls) = write_one r element >>= λ s. run_ring s calls
  run_ring r (read ∷ calls) =
      read_one r >>= λ s. run_ring s.0 calls >>= λ results. ok (s.1 ∷ results)

  unfoldable pub run_queue : List (Option V) → List (Call V) → List (Option (Option V))
  run_queue q [] = []
  run_queue q (write element ∷ calls) = run_queue (q ++ element ∷ []) calls
  run_queue [] (read ∷ calls) = none ∷ run_queue [] calls
  run_queue (x ∷ q) (read ∷ calls) = some x ∷ run_queue q calls

  histories_agree :
      (r : RingGrowing V) (q : List (Option V)) (calls : List (Call V))
      → Represents r q
      → run_ring r calls ≡ ok (run_queue q calls)
  unfolding run_ring run_queue
  histories_agree r q [] v = refl
  histories_agree r q (write element ∷ calls) v =
      let (s, there, w) = Returns-value (write_lem r q element v) in
      rw there (histories_agree s (q ++ element ∷ []) calls w)
  histories_agree r [] (read ∷ calls) v = rw (read_empty r v, histories_agree r [] calls v) refl
  histories_agree r (x ∷ q) (read ∷ calls) v =
      let (s, there, (e, w)) = Returns-value (read_lem r x q v) in
      rw (there, e, histories_agree s.0 q calls w) refl

  -- Any history of writes and reads of a new buffer whose initial size is not 0 returns, and the reads
  -- give what they give on a queue: the elements in the order in which they were written, each once,
  -- and nothing when there is none. No write is lost when the buffer grows.
  pub ring_refines :
      (size : ℕ) (calls : List (Call V))
      → 0 < size
      → run_ring (new_ring_growing size) calls ≡ ok (run_queue [] calls)
  ring_refines size calls positive =
      histories_agree (new_ring_growing size) [] calls (new-Represents size positive)
