-- ===== src/Frames/RoundTrip.antt =====
-- `WriteFrame` and `ReadFrame` together.
use duh_go.Prelude.{
  ◌<◌, ◌+◌, ◌*◌, ◌%◌, arith, take, ◌^◌, ◌≡◌, ◌∙◌, ap, false, ◌++◌, length, ℤ, drop,
}
use duh_go.Prelude.{drop-append_length, ℕ}
use duh_go.Errors.{GoError, nil}
use duh_go.Frames.{Bytes, ok, Sink, write_frame, exceeds, read_frame}
use duh_go.Frames.Laws.{encode, read_frame-encode, read_frame-encode_wraps}
use duh_go.Frames.Writes.{IsFaulty, write_frame_ok}

written_frame :
    (flag : ℕ) (payload : Bytes) (w w' : Sink)
    → IsFaulty w
    → write_frame flag payload w ≡ (w', nil)
    → drop (length w.written) w'.written ≡ encode flag payload
written_frame flag payload w w' broken h =
    ap (λ v. drop (length w.written) v.written) (write_frame_ok flag payload w broken h)
    ∙ drop-append_length w.written (encode flag payload)

-- If `WriteFrame` returns no error for a payload below 2 ^ 32 bytes, and the payload is within the
-- reader's limit, then `ReadFrame` on the bytes that it added to the sink, with any bytes and any
-- error behind them, returns the flag and the payload and leaves exactly what is behind. The sink
-- may break at any byte, if it returns an error when it does.
pub read_frame-write_frame :
    (max : ℤ) (flag : ℕ) (payload rest : Bytes) (e : GoError) (w w' : Sink)
    → IsFaulty w
    → length payload < 2 ^ 32
    → exceeds max (length payload) ≡ false
    → write_frame flag payload w ≡ (w', nil)
    → read_frame max (record { bytes = drop (length w.written) w'.written ++ rest; ending = e })
      ≡ (record { bytes = rest; ending = e }, ok (flag, payload))
read_frame-write_frame max flag payload rest e w w' broken small fit h =
    ap (λ b. read_frame max (record { bytes = b ++ rest; ending = e }))
      (written_frame flag payload w w' broken h)
    ∙ read_frame-encode max flag payload rest e small fit

-- If `WriteFrame` returns no error for a payload of 2 ^ 32 bytes or more, of which `n` are beyond a
-- multiple of 2 ^ 32, then `ReadFrame` on what it has written, with any bytes and any error behind,
-- returns a frame of the first `n` bytes only, if the reader's limit allows them. It leaves the other
-- bytes of the payload, to be read as the next frames. The sink returns an error if it breaks.
pub read_frame-write_frame_long :
    (max : ℤ) (flag : ℕ) (payload rest : Bytes) (e : GoError) (w w' : Sink) (k n : ℕ)
    → IsFaulty w
    → length payload ≡ (k + 1) * 2 ^ 32 + n
    → n < 2 ^ 32
    → exceeds max n ≡ false
    → write_frame flag payload w ≡ (w', nil)
    → read_frame max (record { bytes = drop (length w.written) w'.written ++ rest; ending = e })
      ≡ (record { bytes = drop n payload ++ rest; ending = e }, ok (flag, take n payload))
read_frame-write_frame_long max flag payload rest e w w' k n broken size few fit h =
    let wrapped : length payload % 2 ^ 32 ≡ n = omega (arith, size) in
    let read : read_frame max (record { bytes = encode flag payload ++ rest; ending = e })
        ≡ (record { bytes = drop n payload ++ rest; ending = e }, ok (flag, take n payload)) =
      rw wrapped at (read_frame-encode_wraps max flag payload rest e (rw wrapped fit)) in
    ap (λ b. read_frame max (record { bytes = b ++ rest; ending = e }))
      (written_frame flag payload w w' broken h)
    ∙ read
