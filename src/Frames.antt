-- ===== src/Frames.antt =====
-- stream/stream.go: length-prefixed frames on a byte stream.
--
-- An `io.Writer` is a `Sink`: what has been written, and how many bytes it takes before it breaks.
-- An `io.Reader` is a `Source`: the bytes still to come and the error that stands at their end;
-- `io.ReadFull` reads on until it has enough, so how the bytes are cut into reads does not matter.
pub mod Laws
pub mod Writes
pub mod RoundTrip
use duh_go.Prelude.{
  ℕ, zero, suc, ◌+◌, ◌-◌, ◌*◌, ◌/◌, ◌%◌, ◌^◌, Bool, true, false, List, [], ◌∷◌, ◌++◌,
}
use duh_go.Prelude.{Option, none, some, ltb, leb, ◌==◌, if◌then◌else◌, length, take, drop}
use duh_go.Prelude.{ℤ, pos, negsuc, str, itoa, Text}
use duh_go.Errors.{GoError, nil, sentinel, eof, unexpected_eof, plain, is_nil}

abbrev pub flag_data : ℕ
flag_data = 0x0

abbrev pub flag_final : ℕ
flag_final = 0x1

abbrev pub flag_error : ℕ
flag_error = 0x2

abbrev pub flag_heartbeat : ℕ
flag_heartbeat = 0x3

abbrev pub header_size : ℕ
header_size = 5

abbrev pub Bytes : Type 0
Bytes = List ℕ

-- A Go function's `(A, error)`, where the value counts only if the error is nil.
pub data Result {ℓ} (A : Type ℓ) : Type ℓ where
  ok : A → Result A
  err : GoError → Result A

-- `flushed` is how much of `written` the last Flush has pushed to the client. A sink with `room`
-- breaks when it has taken so many bytes in all, and returns `fault` from then on.
pub record Sink : Type 0 where
  pub written : Bytes
  pub flushed : ℕ
  pub room : Option ℕ
  pub fault : GoError

abbrev pub fits : Option ℕ → ℕ → Bool
fits none n = true
fits (some room) n = leb n room

-- The part of a write that a sink takes which already holds `n` bytes.
abbrev pub clip : Option ℕ → ℕ → Bytes → Bytes
clip none n p = p
clip (some room) n p = take (room - n) p

-- `w.Write(p)`
unfoldable pub write : Bytes → Sink → Sink × GoError
write p w = (
  record w { written = w.written ++ clip w.room (length w.written) p },
  if fits w.room (length w.written + length p) then nil else w.fault,
)

-- `Flush`
unfoldable pub flush : Sink → Sink
flush w = record w { flushed = length w.written }

-- `binary.BigEndian.PutUint32`
unfoldable pub put_uint32 : ℕ → Bytes
put_uint32 v = (v / 2 ^ 24 % 256) ∷ (v / 2 ^ 16 % 256) ∷ (v / 2 ^ 8 % 256) ∷ (v % 256) ∷ []

-- `binary.BigEndian.Uint32` of the bytes at 1 to 4.
abbrev pub uint32 : ℕ → ℕ → ℕ → ℕ → ℕ
uint32 a b c d = a * 2 ^ 24 + b * 2 ^ 16 + c * 2 ^ 8 + d

-- The header that `WriteFrame` builds; `uint32(len(payload))` wraps.
unfoldable pub header : ℕ → Bytes → Bytes
header flag payload = flag ∷ put_uint32 (length payload % 2 ^ 32)

-- The second write of `WriteFrame`, after the header was written.
unfoldable pub write_payload : Bytes → Sink × GoError → Sink × GoError
write_payload payload (w, e) =
    if is_nil e then (if ltb 0 (length payload) then write payload w else (w, nil)) else (w, e)

unfoldable pub write_frame : ℕ → Bytes → Sink → Sink × GoError
write_frame flag payload w = write_payload payload (write (header flag payload) w)

pub record Source : Type 0 where
  pub bytes : Bytes
  pub ending : GoError

-- What `io.ReadFull` returns when the reader ends within the bytes wanted.
abbrev pub short_error : Bytes → GoError → GoError
short_error [] e = e
short_error (b ∷ bs) (sentinel eof) = sentinel unexpected_eof
short_error (b ∷ bs) e = e

-- `io.ReadFull(r, buf)` for a buffer of `n` bytes.
unfoldable pub read_full : ℕ → Source → Source × Result Bytes
read_full n s =
    if leb n (length s.bytes)
    then (record s { bytes = drop n s.bytes }, ok (take n s.bytes))
    else (record s { bytes = [] }, err (short_error s.bytes s.ending))

-- `r.maxPayloadSize > 0 && int(length) > r.maxPayloadSize`
abbrev pub exceeds : ℤ → ℕ → Bool
exceeds (pos zero) n = false
exceeds (pos (suc max)) n = ltb (suc max) n
exceeds (negsuc max) n = false

abbrev pub max_text : ℤ → Text
max_text (pos n) = itoa n
max_text (negsuc n) = str "-" ++ itoa (suc n)

-- The error of a frame over the limit.
unfoldable pub too_large : ℕ → ℤ → GoError
too_large n max =
    plain (str "frame payload size " ++ (itoa n ++ (str " exceeds limit " ++ max_text max)))

-- The end of `ReadFrame`: any error within the payload is `io.ErrUnexpectedEOF`.
unfoldable pub frame_of : ℕ → Source × Result Bytes → Source × Result (ℕ × Bytes)
frame_of flag (s, ok payload) = (s, ok (flag, payload))
frame_of flag (s, err e) = (s, err (sentinel unexpected_eof))

-- `ReadFrame` after the header.
unfoldable pub read_payload : ℤ → ℕ → ℕ → Source → Source × Result (ℕ × Bytes)
read_payload max flag n s =
    if exceeds max n
    then (s, err (too_large n max))
    else if n == 0
    then (s, ok (flag, []))
    else frame_of flag (read_full n s)

abbrev pub header_error : GoError → GoError
header_error (sentinel eof) = sentinel eof
header_error e = sentinel unexpected_eof

-- `ReadFrame` on the outcome of reading the header. A header of another length than 5 does not
-- occur: `read_full` gives as many bytes as it is asked for.
unfoldable pub after_header : ℤ → Source × Result Bytes → Source × Result (ℕ × Bytes)
after_header max (s, ok (flag ∷ a ∷ b ∷ c ∷ d ∷ [])) = read_payload max flag (uint32 a b c d) s
after_header max (s, ok other) = (s, err (sentinel unexpected_eof))
after_header max (s, err e) = (s, err (header_error e))

-- `(*Reader).ReadFrame`, with the reader's `maxPayloadSize`.
unfoldable pub read_frame : ℤ → Source → Source × Result (ℕ × Bytes)
read_frame max s = after_header max (read_full header_size s)
