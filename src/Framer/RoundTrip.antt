-- ===== src/Framer/RoundTrip.antt =====
-- What the reader gives back of what the writer wrote.
use flowline.Base.{
  ℕ, zero, suc, ◌+◌, ◌-◌, ◌%◌, ◌^◌, ◌<◌, ◌≤◌, ◌≡◌, refl, ap, ◌∙◌, true, false, ltb, leb, ◌==◌,
  length, length-append, take, drop, List, [], ◌∷◌, ◌++◌, Option, none, some, if◌then◌else◌, arith,
  Bool-cases, inl, inr, length-take, length-drop,
}
use mathlib.Core.List.{append_assoc}
use flowline.Framer.{
  FrameError, short_buffer, eof, unexpected_eof, put_uint32, uint32, write, read_at_least,
  FrameReader, read_body, read,
}

uint32-put : (n : ℕ) → n < 2 ^ 32 → uint32 (put_uint32 n) ≡ n
unfolding uint32 put_uint32
uint32-put n h = omega arith

module _ {ℓ} {A : Type ℓ} where
  take-append : (n : ℕ) (xs ys : List A) → n ≤ length xs → take n (xs ++ ys) ≡ take n xs
  take-append zero xs ys h = refl
  take-append (suc n) [] ys h = absurd (omega (arith, h))
  take-append (suc n) (x ∷ xs) ys h = ap (x ∷◌) (take-append n xs ys (omega (arith, h)))

  drop-append : (n : ℕ) (xs ys : List A) → n ≤ length xs → drop n (xs ++ ys) ≡ drop n xs ++ ys
  drop-append zero xs ys h = refl
  drop-append (suc n) [] ys h = absurd (omega (arith, h))
  drop-append (suc n) (x ∷ xs) ys h = drop-append n xs ys (omega (arith, h))

  take-drop : (n : ℕ) (xs : List A) → take n xs ++ drop n xs ≡ xs
  take-drop zero xs = refl
  take-drop (suc n) [] = refl
  take-drop (suc n) (x ∷ xs) = ap (x ∷◌) (take-drop n xs)

  take-nil : (n : ℕ) → take {A = A} n [] ≡ []
  take-nil zero = refl
  take-nil (suc n) = refl

  drop-nil : (n : ℕ) → drop {A = A} n [] ≡ []
  drop-nil zero = refl
  drop-nil (suc n) = refl

  take_all : (xs : List A) → take (length xs) xs ≡ xs
  take_all [] = refl
  take_all (x ∷ xs) = ap (x ∷◌) (take_all xs)

  drop_all : (xs : List A) → drop (length xs) xs ≡ []
  drop_all [] = refl
  drop_all (x ∷ xs) = drop_all xs

abbrev Frame : Type 0
Frame = List ℕ × Option FrameError × FrameReader

abbrev join : FrameReader × List ℕ × Option FrameError → Frame → Frame
join (r, bytes, none) more = (bytes, none, r)
join (r, bytes, some short_buffer) more = (bytes ++ more.0, more.1, more.2)
join (r, bytes, some eof) more = (bytes, some eof, r)
join (r, bytes, some unexpected_eof) more = (bytes, some unexpected_eof, r)

-- Reads with one buffer after another until one ends the frame or fails: the bytes that they gave,
-- the error of the last, and the reader.
abbrev pub read_frame : FrameReader → List ℕ → Frame
read_frame r [] = ([], some short_buffer, r)
read_frame r (size ∷ sizes) = let now = read r size in join now (read_frame now.0 sizes)

abbrev pub sum : List ℕ → ℕ
sum [] = 0
sum (n ∷ ns) = n + sum ns

abbrev at_body : List ℕ → List ℕ → FrameReader
at_body body rest = record { stream = body ++ rest; remaining = length body }

read_body-fits :
    (body rest : List ℕ) (size : ℕ)
    → length body ≤ size
    → read_body (at_body body rest) size ≡ (record { stream = rest; remaining = 0 }, body, none)
unfolding read_body read_at_least
read_body-fits body rest size h =
    let max : ltb size (length body) ≡ false = ground arith in
    let got : take (length body) (body ++ rest) ≡ body =
      take-append (length body) body rest (omega arith) ∙ take_all body in
    let left : drop (length body) (body ++ rest) ≡ rest =
      drop-append (length body) body rest (omega arith) ∙ ap (◌++ rest) (drop_all body) in
    let done : length body - length body ≡ 0 = omega arith in
    let there : leb (length body) (length (body ++ rest)) ≡ true =
      ground (arith, length-append body rest) in
    rw (max, got, left, done, there) refl

read_body-part :
    (body rest : List ℕ) (size : ℕ)
    → size < length body
    → read_body (at_body body rest) size
      ≡ (at_body (drop size body) rest, take size body, some short_buffer)
unfolding read_body read_at_least
read_body-part body rest size h =
    let max : ltb size (length body) ≡ true = ground arith in
    let got : take size (body ++ rest) ≡ take size body =
      take-append size body rest (omega arith) in
    let left : drop size (body ++ rest) ≡ drop size body ++ rest =
      drop-append size body rest (omega arith) in
    let count : length body - length (take size body) ≡ length (drop size body) =
      omega (arith, length-take size body, length-drop size body) in
    let more : ltb 0 (length (drop size body)) ≡ true = ground (arith, length-drop size body) in
    rw (max, got, left, count, more) refl

read_in_body :
    (body rest : List ℕ) (size : ℕ)
    → 0 < length body
    → read (at_body body rest) size ≡ read_body (at_body body rest) size
unfolding read
read_in_body body rest size h =
    let in_body : (length body == 0) ≡ false = ground arith in rw (in_body) refl

rest_of_frame :
    (size : ℕ) (sizes body rest : List ℕ)
    → length body ≤ size + sum sizes
    → (let now = read_body (at_body body rest) size in join now (read_frame now.0 sizes))
      ≡ (body, none, record { stream = rest; remaining = 0 })
rest_of_frame size [] body rest h = rw (read_body-fits body rest size (omega (arith, h))) refl
rest_of_frame size (next ∷ sizes) body rest h = elim (Bool-cases (leb (length body) size)) [
  | inl fits ↦ rw (read_body-fits body rest size (ground (arith, fits))) refl
  | inr part ↦
      let after : read (at_body (drop size body) rest) next
          ≡ read_body (at_body (drop size body) rest) next =
        read_in_body (drop size body) rest next (ground (arith, part, length-drop size body)) in
      let ih =
        rest_of_frame next sizes (drop size body) rest (omega (arith, h, length-drop size body)) in
      rw (read_body-part body rest size (ground (arith, part)), after, ih, take-drop size body) refl
]

header_of :
    (n : ℕ) (bytes : List ℕ) → read_at_least 4 (put_uint32 n ++ bytes) ≡ (put_uint32 n, bytes, none)
unfolding read_at_least put_uint32
header_of n bytes =
    let there : leb 4 (suc (suc (suc (suc (length bytes))))) ≡ true = ground arith in
    rw (there) refl

header_of_write :
    (body rest : List ℕ)
    → length body < 2 ^ 32
    → read_at_least 4 (write body ++ rest) ≡ (put_uint32 (length body), body ++ rest, none)
unfolding write
header_of_write body rest small =
    let count : length body % 2 ^ 32 ≡ length body = omega (arith, small) in
    ap (read_at_least 4) (append_assoc (put_uint32 (length body % 2 ^ 32)) body rest)
    ∙ ap (λ n. read_at_least 4 (put_uint32 n ++ (body ++ rest))) count
    ∙ header_of (length body) (body ++ rest)

read_header :
    (body rest : List ℕ) (size : ℕ)
    → length body < 2 ^ 32
    → read (record { stream = write body ++ rest; remaining = 0 }) size
      ≡ read_body (at_body body rest) size
unfolding read
read_header body rest size small =
    let header = header_of_write body rest small in
    rw (header, header, uint32-put (length body) small) refl

-- Read with one buffer after another, of any sizes that hold the frame together, gives back the bytes of a frame of
-- less than 2 ^ 32 bytes as Write wrote them, ends the frame with the last of them, and leaves what follows the frame.
pub frame_roundtrip :
    (size : ℕ) (sizes body rest : List ℕ)
    → length body < 2 ^ 32
    → length body ≤ size + sum sizes
    → read_frame (record { stream = write body ++ rest; remaining = 0 }) (size ∷ sizes)
      ≡ (body, none, record { stream = rest; remaining = 0 })
frame_roundtrip size sizes body rest small h =
    rw (read_header body rest size small) (rest_of_frame size sizes body rest h)

-- A stream that ends within a frame: every Read reports that the buffer is short, and changes nothing.
truncated_never_ends :
    (left size : ℕ)
    → let r : FrameReader = record { stream = []; remaining = suc left } in
      read r size ≡ (r, [], some short_buffer)
unfolding read read_body read_at_least
truncated_never_ends left size =
    let max : ℕ = if ltb size (suc left) then size else suc left in
    let kept : suc left - 0 ≡ suc left = omega arith in
    let more : ltb 0 (suc left - 0) ≡ true = ground arith in
    let in_body : (suc left == 0) ≡ false = ground arith in
    rw (in_body, take-nil {A = ℕ} max, drop-nil {A = ℕ} max, more, kept) refl
