-- ===== src/Streaming/Writer.antt =====
-- `streamWriter` of streaming.go. Every function here runs while `mu` is held, so it is one step;
-- `Server` has the goroutines around them.
use duh_go.Prelude.{ℕ, Bool, true, false, [], Option, none, some, if◌then◌else◌, str, itoa}
use duh_go.Errors.{GoError, nil, sentinel, stream_closed, is_nil, Go, wrap, error_text, Reply}
use duh_go.Errors.{code_internal_error}
use duh_go.Errors.Chain.{Error, as_error}
use duh_go.Frames.{
  Bytes, Result, ok, err, Sink, flush, write_frame, flag_data, flag_final, flag_error,
  flag_heartbeat,
}

-- `stopping` is the channel `stop` closed, and `beating` the channel `stopped` still open, which it
-- is while the heartbeat goroutine runs.
pub record StreamWriter : Type 0 where
  pub closed : Bool
  pub stopping : Bool
  pub beating : Bool
  pub sink : Sink

-- `Flush` after a frame that was written; its error is returned otherwise.
unfoldable pub settle : StreamWriter → Sink × GoError → StreamWriter × GoError
settle sw (w, e) =
    if is_nil e then (record sw { sink = flush w }, nil) else (record sw { sink = w }, e)

unfoldable pub put_frame : ℕ → Bytes → StreamWriter → StreamWriter × GoError
put_frame flag payload sw = settle sw (write_frame flag payload sw.sink)

-- `Send` and `Close` with the marshalled message.
unfoldable pub send_payload : ⦃go : Go⦄ → Result Bytes → StreamWriter → StreamWriter × GoError
send_payload (ok payload) sw = put_frame flag_data payload sw
send_payload (err e) sw = (sw, wrap (str "while marshalling stream message: ") e)

unfoldable pub close_payload : ⦃go : Go⦄ → Result Bytes → StreamWriter → StreamWriter × GoError
close_payload (ok payload) sw = put_frame flag_final payload sw
close_payload (err e) sw = (sw, wrap (str "while marshalling final stream message: ") e)

-- `sw.marshal(msg)` of a message that may be nil: no message, no payload.
abbrev pub marshal_final : {M : Type 0} → (M → Result Bytes) → Option M → Result Bytes
marshal_final marshal none = ok []
marshal_final marshal (some msg) = marshal msg

module _ {M : Type 0} (marshal : M → Result Bytes) ⦃go : Go⦄ where
  -- `(*streamWriter).Send`
  unfoldable pub send : M → StreamWriter → StreamWriter × GoError
  send msg sw = if sw.closed then (sw, sentinel stream_closed) else send_payload (marshal msg) sw

  -- `(*streamWriter).Close` from the lock on, when the heartbeat goroutine has been joined.
  unfoldable pub close : Option M → StreamWriter → StreamWriter × GoError
  close msg sw =
      if sw.closed
      then (sw, sentinel stream_closed)
      else close_payload (marshal_final marshal msg) (record sw { closed = true })

-- One tick of the heartbeat goroutine. It ignores an error of the write, and returns, which closes
-- `stopped`, when it finds the writer closed.
unfoldable pub beat : StreamWriter → StreamWriter
beat sw =
    if sw.closed
    then record sw { beating = false }
    else record sw { sink = flush (write_frame flag_heartbeat [] sw.sink).0 }

abbrev reply_of : ⦃go : Go⦄ → GoError → Option Error → Reply
reply_of e (some found) = found.proto_message
reply_of e none = record { code = itoa code_internal_error; message = error_text e; details = [] }

unfoldable pub build_error_reply : ⦃go : Go⦄ → GoError → Reply
build_error_reply e = reply_of e (as_error e)

abbrev pub put_error : Result Bytes → StreamWriter → StreamWriter
put_error (ok payload) sw = (put_frame flag_error payload sw).0
put_error (err e) sw = sw

-- The end of `HandleStream`, when the handler has returned `e` and the goroutine has been joined.
unfoldable pub finish : ⦃go : Go⦄ → (Reply → Result Bytes) → GoError → StreamWriter → StreamWriter
finish marshal_reply e sw =
    if is_nil e
    then sw
    else if sw.closed
    then sw
    else put_error (marshal_reply (build_error_reply e)) sw
