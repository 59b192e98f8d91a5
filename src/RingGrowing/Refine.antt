-- ===== src/RingGrowing/Refine.antt =====
-- The buffer against the list of its elements.
use flowline.Base.{
  ℕ, ◌+◌, ◌-◌, ◌*◌, ◌%◌, ◌≤◌, ◌<◌, min, ◌≡◌, sym, ap, ◌∙◌, true, false, ltb, leb, ◌==◌, length,
  get_elem?, take, drop, replicate, length-set, get_elem?-set, length-append, length-replicate,
  get_elem?-append, List, [], ◌∷◌, ◌++◌, Option, none, arith, Bool-cases, inl, inr,
}
use flowline.Base.Run.{Returns, returns, Returns-bind}
use flowline.RingGrowing.{RingGrowing, copy, copy_from, grown_data, grow, put}
use flowline.RingGrowing.Copies.{
  wrap, modulo_lem, slice_lem, length-copy, length-copy_from, copy-early, copy_from-before,
  copy_from-after, slice-place, slice-length,
}

module _ {ℓ} {V : Type ℓ} where
  -- The buffer holds the elements of a list, in order.
  pub record Represents (r : RingGrowing V) (q : List (Option V)) : Type ℓ where
    pub size : length r.buffer_data ≡ r.n
    pub beg_within : r.beg < r.n
    pub fits : r.readable ≤ r.n
    pub count : length q ≡ r.readable
    pub places :
        (i : ℕ) → i < r.readable → get_elem? r.buffer_data ((r.beg + i) % r.n) ≡ get_elem? q i

  pub put_lem :
      (r : RingGrowing V) (q : List (Option V)) (element : Option V)
      → Represents r q
      → r.readable < r.n
      → Returns (λ d. Represents d (q ++ element ∷ [])) (put r element)
  unfolding put
  put_lem r q element v room =
      let at = (r.readable + r.beg) % r.n in
      let where_ = wrap (r.readable + r.beg) r.n (omega (arith, v.beg_within)) in
      let positive : 0 < r.n = omega (arith, v.beg_within) in
      let inside : at < length r.buffer_data = ground (arith, v.size, v.beg_within) in
      let test : ltb at (length r.buffer_data) ≡ true = ground arith in
      rw (modulo_lem (r.readable + r.beg) r.n positive, test)
        (returns (record {
          size = length-set r.buffer_data at element ∙ v.size;
          beg_within = v.beg_within;
          fits = omega arith;
          count = omega (arith, length-append q (element ∷ []), v.count);
          places = λ i h.
              let within : i < r.readable + 1 = h in
              let from = wrap (r.beg + i) r.n (omega (arith, v.beg_within)) in
              let written = get_elem?-set r.buffer_data at ((r.beg + i) % r.n) element inside in
              let appended = get_elem?-append q (element ∷ []) i in
              elim (Bool-cases (ltb i r.readable)) [
                | inl before ↦
                    let below : i < r.readable = ground arith in
                    let apart : (at == (r.beg + i) % r.n) ≡ false =
                      ground (arith, where_, from, v.beg_within) in
                    let early : ltb i (length q) ≡ true = ground (arith, v.count) in
                    (rw apart at written) ∙ v.places i below ∙ sym (rw early at appended)
                | inr last ↦
                    let it : i ≡ r.readable = ground arith in
                    let hit : (at == (r.beg + i) % r.n) ≡ true = ground (arith, where_, from, it) in
                    let late : ltb i (length q) ≡ false = ground (arith, v.count) in
                    let first : i - length q ≡ 0 = omega (arith, v.count) in
                    (rw hit at written) ∙ sym (rw (late, first) at appended)
              ];
        }))

  -- The elements of a full buffer, in order.
  abbrev Unrolled : RingGrowing V → List (Option V) → Type ℓ
  Unrolled r d =
      (length d ≡ r.n * 2)
      × ((i : ℕ) → i < r.n → get_elem? d i ≡ get_elem? r.buffer_data ((r.beg + i) % r.n))

  one_copy-Unrolled :
      (r : RingGrowing V)
      → length r.buffer_data ≡ r.n
      → r.beg < r.n
      → r.readable ≡ r.n
      → leb (r.beg + r.readable) r.n ≡ true
      → Returns (Unrolled r) (grown_data r)
  unfolding grown_data
  one_copy-Unrolled r size within full one =
      let to = r.beg + r.readable in
      let all = take (to - r.beg) (drop r.beg r.buffer_data) in
      let new_data = replicate (r.n * 2) none in
      let start : r.beg ≡ 0 = ground arith in
      let cut : length all ≡ to - r.beg =
        slice-length r.buffer_data r.beg (to - r.beg) (omega arith) in
      rw (one, slice_lem r.buffer_data r.beg to (omega arith) (omega arith))
        (returns (
          length-copy new_data all ∙ length-replicate (r.n * 2) none,
          λ i h.
              copy-early new_data all i
                (omega (arith, length-replicate {A = Option V} (r.n * 2) none)) (omega arith)
              ∙ slice-place r.buffer_data r.beg (to - r.beg) i (omega arith)
              ∙ ap (get_elem? r.buffer_data) (ground (arith, wrap (r.beg + i) r.n (omega arith))),
        ))

  two_copies-Unrolled :
      (r : RingGrowing V)
      → length r.buffer_data ≡ r.n
      → r.beg < r.n
      → r.readable ≡ r.n
      → leb (r.beg + r.readable) r.n ≡ false
      → Returns (Unrolled r) (grown_data r)
  unfolding grown_data
  two_copies-Unrolled r size within full two =
      let to = r.beg + r.readable in
      let len = length r.buffer_data in
      let first = take (len - r.beg) (drop r.beg r.buffer_data) in
      let second = take (to % r.n - 0) (drop 0 r.buffer_data) in
      let new_data : List (Option V) = replicate (r.n * 2) none in
      let c = min (length new_data) (length first) in
      let high : to % r.n ≡ r.beg = ground (arith, wrap to r.n (omega arith)) in
      let long : length new_data ≡ r.n * 2 = length-replicate (r.n * 2) none in
      let first_length : length first ≡ r.n - r.beg =
        slice-length r.buffer_data r.beg (len - r.beg) (omega arith) ∙ (omega arith) in
      let second_length : length second ≡ r.beg =
        slice-length r.buffer_data 0 (to % r.n - 0) (omega arith) ∙ (omega arith) in
      let split : c ≡ r.n - r.beg = omega arith in
      rw
        (
          two,
          slice_lem r.buffer_data r.beg len (omega arith) (omega arith),
          modulo_lem to r.n (omega arith),
          slice_lem r.buffer_data 0 (to % r.n) (omega arith) (omega arith),
        )
        (returns (
          length-copy_from c (copy new_data first) second ∙ length-copy new_data first ∙ long,
          λ i h. elim (Bool-cases (ltb i c)) [
            | inl before ↦
                let inside : i < c = ground arith in
                copy_from-before c (copy new_data first) second i
                  (omega (arith, length-copy new_data first)) inside
                ∙ copy-early new_data first i (omega arith) (omega arith)
                ∙ slice-place r.buffer_data r.beg (len - r.beg) i (omega arith)
                ∙ ap (get_elem? r.buffer_data) (ground (arith, wrap (r.beg + i) r.n (omega arith)))
            | inr after ↦
                let outside : c ≤ i = ground arith in
                let j = i - c in
                let place : i ≡ c + j = omega arith in
                ap (get_elem? (copy_from c (copy new_data first) second)) place
                ∙ copy_from-after c (copy new_data first) second j
                    (omega (arith, length-copy new_data first)) (omega arith)
                ∙ slice-place r.buffer_data 0 (to % r.n - 0) j (omega arith)
                ∙ ap (get_elem? r.buffer_data) (ground (arith, wrap (r.beg + i) r.n (omega arith)))
          ],
        ))

  grown_data-Unrolled :
      (r : RingGrowing V)
      → length r.buffer_data ≡ r.n
      → r.beg < r.n
      → r.readable ≡ r.n
      → Returns (Unrolled r) (grown_data r)
  grown_data-Unrolled r size within full = elim (Bool-cases (leb (r.beg + r.readable) r.n)) [
    | inl one ↦ one_copy-Unrolled r size within full one
    | inr two ↦ two_copies-Unrolled r size within full two
  ]

  pub grow_lem :
      (r : RingGrowing V) (q : List (Option V))
      → Represents r q
      → r.readable ≡ r.n
      → Returns (λ g. Represents g q × (g.readable < g.n)) (grow r)
  unfolding grow
  grow_lem r q v full = Returns-bind (grown_data-Unrolled r v.size v.beg_within full) (λ d w.
      returns (
        record {
          size = w.0;
          beg_within = omega (arith, v.beg_within);
          fits = omega arith;
          count = v.count;
          places = λ i h.
              let within : i < r.readable = h in
              let start : (0 + i) % (r.n * 2) ≡ i =
                ground (arith, wrap (0 + i) (r.n * 2) (omega arith)) in
              ap (get_elem? d) start ∙ w.1 i (omega arith) ∙ v.places i within;
        },
        omega (arith, v.beg_within),
      ))
