-- ===== src/Framer.antt =====
-- pkg/util/framer/framer.go: frames of bytes, each after its length. The writer below takes every
-- byte, and the reader below is a list of bytes, given as far as they are asked for.
mod Tests
pub mod RoundTrip
use flowline.Base.{
  ℕ, ◌+◌, ◌-◌, ◌*◌, ◌/◌, ◌%◌, ◌^◌, ltb, leb, not, ◌==◌, length, take, drop, List, [], ◌∷◌, ◌++◌,
  Option, none, some, if◌then◌else◌,
}

pub data FrameError : Type 0 where
  eof : FrameError
  unexpected_eof : FrameError
  short_buffer : FrameError

-- binary.BigEndian.PutUint32
unfoldable pub put_uint32 : ℕ → List ℕ
put_uint32 n = n / 2 ^ 24 % 256 ∷ n / 2 ^ 16 % 256 ∷ n / 2 ^ 8 % 256 ∷ n % 256 ∷ []

-- binary.BigEndian.Uint32, of the header's four bytes.
unfoldable pub uint32 : List ℕ → ℕ
uint32 (a ∷ b ∷ c ∷ d ∷ rest) = ((a * 256 + b) * 256 + c) * 256 + d
uint32 header = 0

-- lengthDelimitedFrameWriter.Write: what reaches the nested writer.
unfoldable pub write : List ℕ → List ℕ
write body = put_uint32 (length body % 2 ^ 32) ++ body

-- io.ReadAtLeast of n bytes into a buffer of n: the bytes, those left, and the error.
unfoldable pub read_at_least : ℕ → List ℕ → List ℕ × List ℕ × Option FrameError
read_at_least n stream = (
  take n stream,
  drop n stream,
  if leb n (length stream)
      then none
      else if length stream == 0
      then some eof
      else some unexpected_eof,
)

pub record FrameReader : Type 0 where
  pub stream : List ℕ
  pub remaining : ℕ

-- The part of Read after the header, for a buffer of the given size.
unfoldable pub read_body : FrameReader → ℕ → FrameReader × List ℕ × Option FrameError
read_body r size =
    let max = if ltb size r.remaining then size else r.remaining in
    let read = read_at_least max r.stream in
    let left = r.remaining - length read.0 in
    (
      record { stream = read.1; remaining = left },
      read.0,
      if ltb 0 left then some short_buffer else read.2,
    )

-- lengthDelimitedFrameReader.Read
unfoldable pub read : FrameReader → ℕ → FrameReader × List ℕ × Option FrameError
read r size =
    if r.remaining == 0
    then (let header = read_at_least 4 r.stream in
        elim header.2 [
          | some err ↦ (record r { stream = header.1 }, [], some err)
          | none ↦ read_body (record { stream = header.1; remaining = uint32 header.0 }) size
        ])
    else read_body r size
