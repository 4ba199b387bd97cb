-- ===== src/Runs/Frames.antt =====
-- Runs of the frame format, and its theorems at concrete inputs.
use duh_go.Prelude.{false, [], ◌∷◌, ◌++◌, ◌≡◌, refl, arith, some, drop, pos, ◌<◌, ◌^◌}
use duh_go.Errors.{nil, sentinel, eof, unexpected_eof}
use duh_go.Frames.{
  ok, err, Sink, write, write_payload, write_frame, header, put_uint32, read_full, frame_of,
  read_payload, after_header, read_frame, exceeds,
}
use duh_go.Frames.Laws.{encode, read_frame_sound, read_frame_truncated}
use duh_go.Frames.RoundTrip.{read_frame-write_frame, read_frame-write_frame_long}
use duh_go.Frames.Writes.{write_frame-write, write_fits}
use duh_go.Prelude.{ℕ, zero, suc, none, ◌+◌, length, take, ap, ◌∙◌}
use duh_go.Frames.{Bytes}
use duh_go.Samples.{broken, sink_with}

abbrev started : Sink
started = record { written = 1 ∷ []; flushed = 1; room = some 20; fault = broken }

abbrev hello_written : Sink
hello_written = record {
  written = 1 ∷ 0 ∷ 0 ∷ 0 ∷ 0 ∷ 2 ∷ 7 ∷ 8 ∷ [];
  flushed = 1;
  room = some 20;
  fault = broken;
}

write_frame_run : write_frame 0 (7 ∷ 8 ∷ []) started ≡ (hello_written, nil)
unfolding write_frame write write_payload header put_uint32
write_frame_run = refl

-- A sink with room for six bytes takes the header and a byte.
write_frame_breaks : write_frame 0 (7 ∷ 8 ∷ []) (sink_with (some 6)) ≡ (
  record { written = 0 ∷ 0 ∷ 0 ∷ 0 ∷ 2 ∷ 7 ∷ []; flushed = 0; room = some 6; fault = broken },
  broken,
)
unfolding write_frame write write_payload header put_uint32
write_frame_breaks = refl

read_frame_run :
    read_frame (pos 10) (record { bytes = 1 ∷ 0 ∷ 0 ∷ 0 ∷ 1 ∷ 5 ∷ 6 ∷ []; ending = sentinel eof })
    ≡ (record { bytes = 6 ∷ []; ending = sentinel eof }, ok (1, 5 ∷ []))
unfolding read_frame read_full after_header read_payload frame_of
read_frame_run = refl

read_frame-write_frame_example :
    read_frame
      (pos 10)
      (record { bytes = drop 1 hello_written.written ++ (9 ∷ []); ending = sentinel eof })
    ≡ (record { bytes = 9 ∷ []; ending = sentinel eof }, ok (0, 7 ∷ 8 ∷ []))
read_frame-write_frame_example =
    read_frame-write_frame (pos 10) 0 (7 ∷ 8 ∷ []) (9 ∷ []) (sentinel eof) started hello_written
      refl (omega arith) refl write_frame_run

read_frame_sound_example :
    (1 ∷ 0 ∷ 0 ∷ 0 ∷ 1 ∷ 5 ∷ 6 ∷ [] ≡ encode 1 (5 ∷ []) ++ (6 ∷ []))
    × (1 < 2 ^ 32)
    × (exceeds (pos 10) 1 ≡ false)
    × (sentinel eof ≡ sentinel eof)
read_frame_sound_example =
    read_frame_sound (pos 10) (1 ∷ 0 ∷ 0 ∷ 0 ∷ 1 ∷ 5 ∷ 6 ∷ []) (sentinel eof) _ 1 (5 ∷ [])
      (omega arith) read_frame_run

read_frame_truncated_example :
    (read_frame (pos 10) (record { bytes = 0 ∷ 0 ∷ 0 ∷ 0 ∷ 2 ∷ 7 ∷ []; ending = sentinel eof })).1
    ≡ err (sentinel unexpected_eof)
unfolding header put_uint32
read_frame_truncated_example =
    read_frame_truncated (pos 10) 0 (7 ∷ 8 ∷ []) (0 ∷ 0 ∷ 0 ∷ 0 ∷ 2 ∷ 7 ∷ []) 8 [] (omega arith)
      refl refl

-- A payload of so many zeros.
unfoldable zeros : ℕ → Bytes
zeros zero = []
zeros (suc n) = 0 ∷ zeros n

length-zeros : (n : ℕ) → length (zeros n) ≡ n
unfolding zeros
length-zeros zero = refl
length-zeros (suc n) = ap suc (length-zeros n)

-- The frame of three bytes more than a length field can hold.
abbrev long_frame : Sink
long_frame = record (sink_with none) { written = [] ++ encode 0 (zeros (2 ^ 32 + 3)) }

read_frame-write_frame_long_example :
    read_frame (pos 10) (record { bytes = drop 0 long_frame.written ++ []; ending = sentinel eof })
    ≡ (
      record { bytes = drop 3 (zeros (2 ^ 32 + 3)) ++ []; ending = sentinel eof },
      ok (0, take 3 (zeros (2 ^ 32 + 3))),
    )
read_frame-write_frame_long_example =
    read_frame-write_frame_long (pos 10) 0 (zeros (2 ^ 32 + 3)) [] (sentinel eof) (sink_with none)
      long_frame 0 3 refl (length-zeros (2 ^ 32 + 3)) (omega arith) refl
      (write_frame-write 0 (zeros (2 ^ 32 + 3)) (sink_with none) refl
        ∙ write_fits (encode 0 (zeros (2 ^ 32 + 3))) (sink_with none) refl)
