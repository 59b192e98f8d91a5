-- ===== src/Framer/Tests.antt =====
-- Frames of a few bytes.
use flowline.Base.{ℕ, ◌≡◌, refl, List, [], ◌∷◌, ◌++◌, none, some, arith}
use flowline.Framer.{
  short_buffer, unexpected_eof, put_uint32, uint32, write, read_at_least, read_body, read,
}
use flowline.Framer.RoundTrip.{read_frame, frame_roundtrip}

-- A frame of three bytes, read with buffers of two and four, before an empty frame.
abbrev body : List ℕ
body = 7 ∷ 8 ∷ 9 ∷ []

frame_roundtrip_example :
    read_frame (record { stream = write body ++ write []; remaining = 0 }) (2 ∷ 4 ∷ [])
    ≡ (body, none, record { stream = write []; remaining = 0 })
frame_roundtrip_example = frame_roundtrip 2 (4 ∷ []) body (write []) (omega arith) (omega arith)

first_read :
    read (record { stream = write body; remaining = 0 }) 2
    ≡ (record { stream = 9 ∷ []; remaining = 1 }, 7 ∷ 8 ∷ [], some short_buffer)
unfolding read read_body read_at_least uint32 write put_uint32
first_read = refl

short_header :
    read (record { stream = 0 ∷ 0 ∷ []; remaining = 0 }) 2
    ≡ (record { stream = []; remaining = 0 }, [], some unexpected_eof)
unfolding read read_body read_at_least uint32 write put_uint32
short_header = refl
