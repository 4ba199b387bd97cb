-- ===== src/Runs/Streamed.antt =====
-- A stream whose handler fails, at a concrete input.
use duh_go.Prelude.{ℕ, [], ◌∷◌, ◌≡◌, refl, arith, List, some, none, str, true, false}
use duh_go.Errors.{GoError, nil, service}
use duh_go.Errors.Chain.{as_error, service_methods}
use duh_go.Frames.{ok, write, flush, write_payload, write_frame, header, put_uint32, Bytes}
use duh_go.Streaming.Writer.{settle, put_frame, send_payload, beat, finish, build_error_reply}
use duh_go.Streaming.Writer
use duh_go.Streaming.Server.{
  System, Actor, handler, ticker, stopper, finished, stop, resume, advance, step, run, start,
}
use duh_go.Streaming.Failing.{emit_failing}
use duh_go.Streaming.Failure.{frame_error}
use duh_go.Streaming.Receive.{recv_all}
use duh_go.Streaming.Delivery.{IsCodec}
use duh_go.Retry.{should_retry, on_retryable}
use duh_go.Retry.Streamed.{emit_failing-should_retry}
use duh_go.Samples.{sample_go, sink_with, to_byte, of_byte, reply_bytes, reply_of_bytes, reader_of}

-- A service's error that asks the client to try again.
abbrev again : GoError
again = service (record { details = []; code = str "454"; http_code = 454 }) nil

abbrev failing_steps : List Actor
failing_steps = handler ∷ ticker ∷ handler ∷ stopper ∷ handler ∷ []

abbrev failed_stream : System ℕ
failed_stream =
    run to_byte reply_bytes failing_steps
      (start true (sink_with none) (emit_failing (5 ∷ []) again))

failed_stream_finished : failed_stream.phase ≡ finished
unfolding run step advance resume stop start emit_failing Writer.send send_payload put_frame settle
    beat finish flush write_frame write write_payload header put_uint32 build_error_reply as_error
failed_stream_finished = refl

byte_sent : (msg : ℕ) (payload : Bytes) → to_byte msg ≡ ok payload → payload ≡ msg ∷ []
byte_sent msg payload e = cc

byte-IsCodec :
    (msg : ℕ) → IsCodec to_byte of_byte (reader_of failed_stream.sw.sink.written).max_payload msg
byte-IsCodec msg = record {
  decodes = λ payload e. rw (byte_sent msg payload e) refl;
  small = λ payload e. rw (byte_sent msg payload e) (omega arith);
  fits = λ payload e. rw (byte_sent msg payload e) refl;
}

emit_failing-should_retry_example :
    (recv_all of_byte reply_of_bytes 2 (reader_of failed_stream.sw.sink.written)
      ≡ some (some 5 ∷ [], frame_error 200 (build_error_reply again)))
    × (should_retry {F = ℕ} (frame_error 200 (build_error_reply again)) (on_retryable 0 2) ≡ false)
unfolding build_error_reply as_error service_methods
emit_failing-should_retry_example =
    emit_failing-should_retry 0 2 to_byte of_byte reply_bytes reply_of_bytes (5 ∷ []) again
      (str "454") true (sink_with none) failing_steps (reader_of failed_stream.sw.sink.written)
      (byte-IsCodec 5, tt) (record { decodes = refl; small = omega arith; fits = refl }) refl refl
      ((5 ∷ [], refl), tt) (record { empty = refl; faulty = refl }) refl refl failed_stream_finished
      refl refl refl
