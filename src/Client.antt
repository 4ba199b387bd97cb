-- ===== src/Client.antt =====
-- client.go: how a response becomes a message, a body or an error.
--
-- `http.Client.Do` is a parameter's result: a response, or the error of a request that failed.
-- Responses has these, and the errors.
pub mod Arrives
pub mod Agrees
pub mod Delivers
pub mod Refused
use duh_go.Prelude.{false, [], ◌++◌, Option, none, some, Text, str, text_eq, ◌/◌, ◌||◌}
use duh_go.Prelude.{if◌then◌else◌, ◌==◌, ℤ, pos, is_zero}
use mathlib.Core.Bool.{not}
use duh_go.Errors.{Details, index, Reply, GoError, nil, is_nil, Go, wrap, code_ok, code_not_found}
use duh_go.Frames.{Bytes, Result, ok, err, Source}
use duh_go.Media.{
  Encoding, json, protobuf, unmarshal_for_media_type, normalize_media_type, content_stream_json,
  content_stream_proto_buf, content_octet_stream,
}
use duh_go.Streaming.Reader.{StreamReader}
pub use duh_go.Responses.{Request, Response, Answer, answered, failed}
unfoldable pub use duh_go.Responses.{
  copy_body, new_client_error, insert_all, retry_after, reply_details, new_reply_error, body_error,
  new_infra_error, read_body_error, request_error,
}

-- Four megabytes.
abbrev pub default_max_frame_payload : ℤ
default_max_frame_payload = pos 4000000

-- Sixty seconds, in nanoseconds.
abbrev pub default_heartbeat_timeout : ℤ
default_heartbeat_timeout = pos 60000000000

module _ (unmarshal_reply : Encoding → Bytes → Result Reply) ⦃go : Go⦄ where
  -- A reply that was decoded, or a body that is none.
  abbrev pub reply_or_infra : Request → Response → Bytes → Result Reply → GoError
  reply_or_infra req resp body (ok reply) = new_reply_error req resp reply
  reply_or_infra req resp body (err e) = new_infra_error req resp body

  -- JSON first, then protobuf.
  abbrev pub either_encoding : Bytes → Result Reply → Result Reply
  either_encoding body (ok reply) = ok reply
  either_encoding body (err e) = unmarshal_reply protobuf body

  -- Steps 2 and 3 of `handleErrorResponse`, of a Content-Type that tells nothing.
  unfoldable pub classify_untyped : Request → Response → Bytes → GoError
  classify_untyped req resp body =
      if not (text_eq (index (str "X-DUH-Version") resp.header) [])
      then reply_or_infra req resp body (either_encoding body (unmarshal_reply json body))
      else if resp.status_code / 100 == 5 || resp.status_code == code_not_found
      then new_infra_error req resp body
      else body_error false req resp body

  abbrev pub classify : Request → Response → Bytes → Option Encoding → GoError
  classify req resp body (some enc) = reply_or_infra req resp body (unmarshal_reply enc body)
  classify req resp body none = classify_untyped req resp body

  abbrev pub classify_copy : Request → Response → Bytes × GoError → GoError
  classify_copy req resp (body, e) =
      if is_nil e
      then classify req resp body
          (unmarshal_for_media_type (index (str "Content-Type") resp.header))
      else read_body_error req resp e

  -- `handleErrorResponse`
  unfoldable pub handle_error_response : Request → Response → GoError
  handle_error_response req resp = classify_copy req resp (copy_body resp.body)

  module _ {M : Type 0} (unmarshal : Encoding → Bytes → Result M) where
    abbrev pub parsed : Bytes → Result M → Result M
    parsed body (ok msg) = ok msg
    parsed body (err e) = err (
        new_client_error [] (wrap (str "while parsing response body '" ++ (body ++ str "': ")) e)
          [])

    abbrev pub decode : Request → Response → Bytes → Option Encoding → Result M
    decode req resp body none = err (new_infra_error req resp body)
    decode req resp body (some enc) = parsed body (unmarshal enc body)

    abbrev pub decode_copy : Request → Response → Bytes × GoError → Result M
    decode_copy req resp (body, e) =
        if is_nil e
        then decode req resp body
            (unmarshal_for_media_type (index (str "Content-Type") resp.header))
        else err (read_body_error req resp e)

    -- `(*Client).Do`
    unfoldable pub do_call : Request → Answer → Result M
    do_call req (failed e) = err (request_error req e)
    do_call req (answered resp) =
        if resp.status_code == code_ok
        then decode_copy req resp (copy_body resp.body)
        else err (handle_error_response req resp)

  -- `DoBytes`: the body of the response, unread.
  unfoldable pub do_bytes : Request → Answer → Result Source
  do_bytes req (failed e) = err (request_error req e)
  do_bytes req (answered resp) =
      if not (resp.status_code == code_ok)
      then err (handle_error_response req resp)
      else if text_eq (normalize_media_type (index (str "Content-Type") resp.header))
          content_octet_stream
      then ok resp.body
      else err (new_infra_error req resp (copy_body resp.body).0)

  -- `DoContent`: what it appends to the caller's buffer, and the headers or an error.
  unfoldable pub do_content : Request → Answer → Bytes × Result Details
  do_content req (failed e) = ([], err (request_error req e))
  do_content req (answered resp) =
      if resp.status_code == code_ok
      then (
        (copy_body resp.body).0,
        if is_nil (copy_body resp.body).1
            then ok resp.header
            else err (read_body_error req resp (copy_body resp.body).1),
      )
      else ([], err (handle_error_response req resp))

  abbrev pub stream_encoding : Text → Option Encoding
  stream_encoding media =
      if text_eq content_stream_json media
      then some json
      else if text_eq content_stream_proto_buf media
      then some protobuf
      else none

  -- A setting of the client, of which 0 asks for the default.
  abbrev pub or_default : ℤ → ℤ → ℤ
  or_default default given = if is_zero given then default else given

  -- The reader that `DoStream` makes; `max_frame_payload` and `heartbeat_timeout` are the client's,
  -- and `context_error` is what the request's context says when a read of the body has failed.
  abbrev pub new_stream_reader : GoError → ℤ → ℤ → Response → StreamReader
  new_stream_reader context_error max_frame_payload heartbeat_timeout resp = record {
    source = resp.body;
    max_payload = or_default default_max_frame_payload max_frame_payload;
    status_code = resp.status_code;
    context_error = context_error;
    heartbeat_timeout = or_default default_heartbeat_timeout heartbeat_timeout;
    done = false;
    has_pending = false;
    canceled = false;
    body_closed = false;
  }

  abbrev pub stream_of :
      (Source → Source)
      → GoError
      → ℤ
      → ℤ
      → Request
      → Response
      → Option Encoding
      → Result (StreamReader × Encoding)
  stream_of canceled context_error max timeout req resp (some enc) =
      ok (new_stream_reader context_error max timeout resp, enc)
  stream_of canceled context_error max timeout req resp none =
      err (new_infra_error req resp (copy_body (canceled resp.body)).0)

  -- `DoStream`, with the encoding of the reader's `unmarshal`. `canceled` is what is read of a body
  -- once the context of its request has been canceled, which is before `DoStream` reads it.
  unfoldable pub do_stream :
      (Source → Source) → GoError → ℤ → ℤ → Request → Answer → Result (StreamReader × Encoding)
  do_stream canceled context_error max timeout req (failed e) = err (request_error req e)
  do_stream canceled context_error max timeout req (answered resp) =
      if resp.status_code == code_ok
      then stream_of canceled context_error max timeout req resp
          (stream_encoding (normalize_media_type (index (str "Content-Type") resp.header)))
      else err (handle_error_response req (record resp { body = canceled resp.body }))
