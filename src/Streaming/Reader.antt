-- ===== src/Streaming/Reader.antt =====
-- `streamReader` of streaming.go: the client's side of a structured stream.
--
-- The response body is a `Source`. Its `ending` is the error of the read that finds no more bytes:
-- EOF, a broken connection, or the cancellation that the heartbeat timer or a caller caused, and
-- `context_error` is what the request's context says when that read has failed.
use duh_go.Prelude.{
  ℕ, zero, suc, ◌+◌, ◌-◌, ◌/◌, ◌%◌, Bool, true, false, [], ◌∷◌, ◌++◌, Option, none, some,
}
use duh_go.Prelude.{if◌then◌else◌, ltb, ◌==◌, length, ℤ, is_pos, str, Text, ◌&&◌}
use mathlib.Core.Bool.{not}
use duh_go.Errors.{
  GoError, nil, sentinel, eof, unexpected_eof, heartbeat_timeout, plain, client, is_nil, Go, wrap,
  Reply,
}
use duh_go.Frames.{
  Bytes, Result, ok, err, Source, read_frame, flag_data, flag_final, flag_error, flag_heartbeat,
}

pub record StreamReader : Type 0 where
  pub source : Source
  pub max_payload : ℤ
  pub status_code : ℕ
  pub context_error : GoError
  pub heartbeat_timeout : ℤ
  pub done : Bool
  pub has_pending : Bool
  pub canceled : Bool
  pub body_closed : Bool

-- What `Recv` returns: the reader, the message that it decoded into its argument, and the error.
pub record Received (M : Type 0) : Type 0 where
  pub reader : StreamReader
  pub msg : Option M
  pub error : GoError

abbrev hex_digit : ℕ → ℕ
hex_digit d = if ltb d 10 then b'0' + d else b'a' + (d - 10)

-- `%x` of a byte.
unfoldable pub hex_byte : ℕ → Text
hex_byte n = if ltb n 16 then hex_digit n ∷ [] else hex_digit (n / 16) ∷ hex_digit (n % 16) ∷ []

unfoldable pub unknown_flag : ℕ → GoError
unknown_flag flag = plain (str "unknown frame flag: 0x" ++ hex_byte flag)

module _ {M : Type 0} (unmarshal : Bytes → Result M) (unmarshal_reply : Bytes → Result Reply)
    ⦃go : Go⦄ where
  -- `sr.done = true; return err`
  abbrev pub fail : StreamReader → GoError → Received M
  fail sr e = record { reader = record sr { done = true }; msg = none; error = e }

  -- The error of `ReadFrame`.
  unfoldable pub read_error : StreamReader → GoError → Received M
  read_error sr (sentinel eof) = fail sr (sentinel unexpected_eof)
  read_error sr e =
      if is_pos sr.heartbeat_timeout && not (is_nil sr.context_error)
      then fail sr (sentinel heartbeat_timeout)
      else fail sr e

  unfoldable pub data_frame : StreamReader → Result M → Received M
  data_frame sr (ok msg) = record { reader = sr; msg = some msg; error = nil }
  data_frame sr (err e) = fail sr e

  -- The payload of a final frame; EOF is then for the next call.
  unfoldable pub final_message : StreamReader → Result M → Received M
  final_message sr (ok msg) = record {
    reader = record sr { has_pending = true };
    msg = some msg;
    error = nil;
  }
  final_message sr (err e) = fail sr e

  unfoldable pub final_frame : StreamReader → Bytes → Received M
  final_frame sr [] = fail sr (sentinel eof)
  final_frame sr (b ∷ payload) = final_message sr (unmarshal (b ∷ payload))

  unfoldable pub error_frame : StreamReader → Result Reply → Received M
  error_frame sr (ok reply) = fail sr (
      client
        (record {
          code = reply.code;
          http_code = sr.status_code;
          msg = reply.message;
          details = reply.details;
          is_infra_error = false;
        })
        nil)
  error_frame sr (err e) = fail sr (wrap (str "while unmarshalling error frame: ") e)

  -- The `switch` on the flag, but for the heartbeat, which the loop skips.
  unfoldable pub dispatch : StreamReader → ℕ → Bytes → Received M
  dispatch sr flag payload =
      if flag == flag_data
      then data_frame sr (unmarshal payload)
      else if flag == flag_final
      then final_frame sr payload
      else if flag == flag_error
      then error_frame sr (unmarshal_reply payload)
      else fail sr (unknown_flag flag)

  -- One round of the loop, with what `ReadFrame` returned; `again` is the next round.
  unfoldable pub round :
      (StreamReader → Option (Received M))
      → StreamReader
      → Source × Result (ℕ × Bytes)
      → Option (Received M)
  round again sr (s, ok (flag, payload)) =
      let sr' = record sr { source = s } in
      let more = again sr' in
      if flag == flag_heartbeat then more else some (dispatch sr' flag payload)
  round again sr (s, err e) = some (read_error (record sr { source = s }) e)

  -- The loop. Every round takes a frame, so there are fewer rounds than bytes: see `recv_total`.
  unfoldable pub recv_loop : ℕ → StreamReader → Option (Received M)
  recv_loop zero sr = none
  recv_loop (suc fuel) sr = round (recv_loop fuel) sr (read_frame sr.max_payload sr.source)

  -- `Recv`
  unfoldable pub recv : StreamReader → Option (Received M)
  recv sr =
      if sr.done && not sr.has_pending
      then some (record { reader = sr; msg = none; error = sentinel eof })
      else if sr.has_pending
      then some (fail (record sr { has_pending = false }) (sentinel eof))
      else recv_loop (suc (length sr.source.bytes)) sr

-- `Close`; what `resp.Body.Close` returns is the body's.
unfoldable pub close : StreamReader → StreamReader
close sr = record sr { canceled = true; done = true; body_closed = true }
