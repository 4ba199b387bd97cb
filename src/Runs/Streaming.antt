-- ===== src/Runs/Streaming.antt =====
-- Runs of a stream, and the theorems on streams at concrete inputs.
use duh_go.Prelude.{ℕ, [], ◌∷◌, ◌++◌, ◌≡◌, refl, arith, List, Option, some, none, true, false, ◌⊎◌}
use duh_go.Errors.{sentinel, eof}
use duh_go.Frames.{ok, write, flush, write_payload, write_frame, header, put_uint32, Bytes, clip}
use duh_go.Streaming.Wire.{encode_all, Frame, IsOpen, IsEnded}
use duh_go.Streaming.Writer.{settle, put_frame, send_payload, close_payload, beat, finish}
use duh_go.Streaming.Writer
use duh_go.Streaming.Reader.{Received, recv}
use duh_go.Streaming.Server.{
  System, Actor, Handler, handler, ticker, stopper, finished, stop, resume, advance, step, run,
  start, emit,
}
use duh_go.Streaming.Reach.{IsFresh}
use duh_go.Streaming.Order.{wire, wire_shape, joined}
use duh_go.Streaming.Liveness.{no_deadlock, emit-Returns}
use duh_go.Streaming.Panic.{IsLost, run-panicked}
use duh_go.Streaming.Receive.{recv_all, recv_total}
use duh_go.Streaming.Delivery.{IsCodec}
use duh_go.Streaming.EndToEnd.{delivery}
use duh_go.Samples.{sample_go, sink_with, to_byte, of_byte, reply_bytes, reply_of_bytes, reader_of}

-- What a run of a stream computes with.
streams : Unit {0}
unfolding run step advance resume stop start emit Writer.send Writer.close send_payload
    close_payload put_frame settle beat finish flush write_frame write write_payload header
    put_uint32
streams = tt

fresh : (room : Option ℕ) → IsFresh (sink_with room)
fresh room = record { empty = refl; faulty = refl }

-- Two messages, with a heartbeat between them and one while `Close` waits.
abbrev schedule : List Actor
schedule =
    handler ∷ ticker ∷ handler ∷ handler ∷ ticker ∷ handler ∷ stopper ∷ handler ∷ handler ∷ handler
    ∷ []

abbrev two_sent : System ℕ
two_sent = run to_byte reply_bytes schedule (start true (sink_with none) (emit (5 ∷ 6 ∷ []) none))

two_sent_finished : two_sent.phase ≡ finished
unfolding streams
two_sent_finished = refl

two_sent_wire :
    two_sent.sw.sink.written
    ≡ encode_all ((0, 5 ∷ []) ∷ (3, []) ∷ (0, 6 ∷ []) ∷ (3, []) ∷ (1, []) ∷ [])
unfolding streams
two_sent_wire = refl

byte_payload : (msg : ℕ) (payload : Bytes) → to_byte msg ≡ ok payload → payload ≡ msg ∷ []
byte_payload msg payload e = cc

codec : (msg : ℕ) → IsCodec to_byte of_byte (reader_of []).max_payload msg
codec msg = record {
  decodes = λ payload e. rw (byte_payload msg payload e) refl;
  small = λ payload e. rw (byte_payload msg payload e) (omega arith);
  fits = λ payload e. rw (byte_payload msg payload e) refl;
}

delivery_example :
    recv_all of_byte reply_of_bytes 4 (reader_of two_sent.sw.sink.written)
    ≡ some (some 5 ∷ some 6 ∷ [], sentinel eof)
delivery_example =
    delivery to_byte of_byte reply_bytes reply_of_bytes (5 ∷ 6 ∷ []) none true (sink_with none)
      schedule (reader_of two_sent.sw.sink.written) (codec 5, (codec 6, tt)) (λ msg e. cc)
      (λ msg e. cc) ((5 ∷ [], refl), ((6 ∷ [], refl), tt)) ([], refl) (fresh none) refl
      two_sent_finished refl refl refl

wire_shape_example :
    (fs : List Frame) × (gs : List Frame) × (wire to_byte reply_bytes true
        (sink_with (some 7))
        (emit (5 ∷ 6 ∷ []) none)
        (handler ∷ [])
      ≡ clip (some 7) 0 (encode_all fs))
    × (wire to_byte reply_bytes true
          (sink_with (some 7))
          (emit (5 ∷ 6 ∷ []) none)
          (handler ∷ ticker ∷ [])
        ≡ clip (some 7) 0 (encode_all (fs ++ gs)))
    × (IsOpen fs ⊎ (IsEnded fs × (gs ≡ [])))
    × (IsOpen (fs ++ gs) ⊎ IsEnded (fs ++ gs))
wire_shape_example =
    wire_shape to_byte reply_bytes true (sink_with (some 7)) (emit (5 ∷ 6 ∷ []) none) (handler ∷ [])
      (ticker ∷ []) (fresh (some 7))

joined_example :
    (two_sent.sw.beating ≡ false)
    × (run to_byte reply_bytes (ticker ∷ handler ∷ []) two_sent ≡ two_sent)
joined_example =
    joined to_byte reply_bytes true (sink_with none) (emit (5 ∷ 6 ∷ []) none) schedule
      (ticker ∷ handler ∷ []) (fresh none) two_sent_finished

no_deadlock_example :
    (bs : List Actor) × ((run to_byte reply_bytes
        (handler ∷ ticker ∷ bs)
        (start true (sink_with none) (emit (5 ∷ []) none))).phase
      ≡ finished)
no_deadlock_example =
    no_deadlock to_byte reply_bytes true (sink_with none) (emit (5 ∷ []) none)
      (handler ∷ ticker ∷ []) (emit-Returns (5 ∷ []) none)

-- A handler that sends a message and panics.
abbrev send_and_panic : Handler ℕ
send_and_panic = Handler.send 5 (λ _. Handler.panic)

sends_and_panics : IsLost (
    run to_byte reply_bytes
      (handler ∷ ticker ∷ handler ∷ [])
      (start true (sink_with none) send_and_panic))
unfolding streams
sends_and_panics = record { phase = refl; stopping = refl }

run-panicked_example :
    let s : System ℕ = run to_byte reply_bytes (ticker ∷ stopper ∷ handler ∷ ticker ∷ []) (
      run to_byte reply_bytes
        (handler ∷ ticker ∷ handler ∷ [])
        (start true (sink_with none) send_and_panic)) in
    IsLost s × ((s.sw.closed ≡ false) × (s.sw.beating ≡ true))
run-panicked_example =
    run-panicked to_byte reply_bytes (sink_with none) send_and_panic
      (handler ∷ ticker ∷ handler ∷ []) (ticker ∷ stopper ∷ handler ∷ ticker ∷ []) sends_and_panics

recv_total_example :
    (r : Received ℕ) × (recv of_byte reply_of_bytes (reader_of (3 ∷ 0 ∷ 0 ∷ [])) ≡ some r)
recv_total_example = recv_total of_byte reply_of_bytes (reader_of (3 ∷ 0 ∷ 0 ∷ []))
