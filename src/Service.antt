-- ===== src/Service.antt =====
-- The responses of service.go: content negotiation, replies, errors, raw content and bytes.
pub mod Total
pub mod ByteStream
pub mod Requests
pub mod StreamStart
use duh_go.Prelude.{
  ℕ, zero, suc, Bool, true, false, List, [], ◌∷◌, ◌++◌, Option, none, some, Text, str,
}
use duh_go.Prelude.{itoa, if◌then◌else◌, ◌&&◌}
use mathlib.Core.Bool.{not}
use duh_go.Errors.{
  Details, index, insert, Reply, GoError, is_nil, Go, error_text, code_ok, code_internal_error,
  code_client_content_error,
}
use duh_go.Errors.Chain.{Error, as_error}
use duh_go.Frames.{Bytes, Result, ok, err, Sink, write, flush}
use duh_go.Media.{
  Encoding, json, negotiate, normalize_media_type, content_type_of, content_type_json,
  content_type_proto_buf, content_octet_stream,
}

-- `http.ResponseWriter`: the headers set so far, the status and the headers that have been committed,
-- and the body. `can_flush` is whether it is an `http.Flusher` as well.
pub record ResponseWriter : Type 0 where
  pub header : Details
  pub committed : Option (ℕ × Details)
  pub sink : Sink
  pub can_flush : Bool

-- `w.Header().Set(k, v)`
abbrev pub set_header : Text → Text → ResponseWriter → ResponseWriter
set_header k v w = record w { header = insert k v w.header }

abbrev pub commit : ℕ → Details → Option (ℕ × Details) → Option (ℕ × Details)
commit code header none = some (code, header)
commit code header (some c) = some c

-- `w.WriteHeader(code)` of net/http for a code of 200 to 999, of which only the first call counts.
-- The package gives it no others by itself; net/http sends one of 100 to 199 ahead of the response and
-- panics at the rest, which is not modelled.
unfoldable pub write_header : ℕ → ResponseWriter → ResponseWriter
write_header code w = record w { committed = commit code w.header w.committed }

-- `w.Write(p)`, which commits the status 200 where none is.
unfoldable pub write_body : Bytes → ResponseWriter → ResponseWriter × GoError
write_body p w =
    let w' = write_header code_ok w in (record w' { sink = (write p w.sink).0 }, (write p w.sink).1)

-- `setServiceHeaders`
unfoldable pub set_service_headers : ResponseWriter → ResponseWriter
set_service_headers w =
    set_header (str "X-Content-Type-Options") (str "nosniff")
      (set_header (str "X-DUH-Version") (str "2.0") w)

-- The two kinds of messages that a service sends: its own, and the package's Reply.
pub data Message (M : Type 0) : Type 0 where
  message : M → Message M
  reply_message : Reply → Message M

-- The message of the default case of `Reply`.
unfoldable pub bad_accept : Text → Text
bad_accept mime_type =
    str "Accept header '"
    ++ (mime_type
        ++ (str "' is invalid format or unrecognized content type, only ["
            ++ (content_type_json
                ++ (str "," ++ (content_type_proto_buf ++ str "] are supported by this method")))))

module _ {M : Type 0} (marshal : Encoding → Message M → Result Bytes) ⦃go : Go⦄ where
  -- The reply that `ReplyWithCode` makes.
  abbrev pub code_reply : ℕ → Details → Text → Reply
  code_reply code details msg = record { code = itoa code; message = msg; details = details }

  -- The end of `Reply`, once the message is encoded.
  unfoldable pub send_reply : Encoding → ℕ → Bytes → ResponseWriter → ResponseWriter
  send_reply enc code b w =
      (write_body b (
        write_header code
          (set_service_headers (set_header (str "Content-Type") (content_type_of enc) w)))).0

  abbrev pub sent :
      (ℕ → Reply → Option ResponseWriter)
      → Encoding
      → ℕ
      → ResponseWriter
      → Result Bytes
      → Option ResponseWriter
  sent again enc code w (ok b) = some (send_reply enc code b w)
  sent again enc code w (err e) =
      again code_internal_error (code_reply code_internal_error [] (error_text e))

  abbrev pub negotiated :
      (Text → ℕ → Reply → Option ResponseWriter)
      → Text
      → ℕ
      → Message M
      → ResponseWriter
      → Option Encoding
      → Option ResponseWriter
  negotiated again accept code msg w (some enc) = sent (again accept) enc code w (marshal enc msg)
  negotiated again accept code msg w none =
      again content_type_json code_client_content_error
        (code_reply code_client_content_error [] (bad_accept (normalize_media_type accept)))

  -- `Reply`, which calls itself, through `ReplyWithCode`, where it cannot send the message. `accept`
  -- is the request's Accept header, which it overwrites for the second call.
  unfoldable pub reply_calls : ℕ → Text → ℕ → Message M → ResponseWriter → Option ResponseWriter
  reply_calls zero accept code msg w = none
  reply_calls (suc fuel) accept code msg w =
      negotiated (λ accept code r. reply_calls fuel accept code (reply_message r) w) accept code msg
        w (negotiate (normalize_media_type accept))

  -- `Reply`: a call for the Accept header, one for the message that has no encoding, and the last.
  unfoldable pub reply : Text → ℕ → Message M → ResponseWriter → Option ResponseWriter
  reply accept code msg w = reply_calls 3 accept code msg w

  -- `ReplyWithCode`
  unfoldable pub reply_with_code :
      Text → ℕ → Details → Text → ResponseWriter → Option ResponseWriter
  reply_with_code accept code details msg w =
      reply accept code (reply_message (code_reply code details msg)) w

  abbrev pub error_reply : Text → GoError → ResponseWriter → Option Error → Option ResponseWriter
  error_reply accept e w (some found) =
      reply accept found.http_code (reply_message found.proto_message) w
  error_reply accept e w none = reply_with_code accept code_internal_error [] (error_text e) w

  -- `ReplyError`
  unfoldable pub reply_error : Text → GoError → ResponseWriter → Option ResponseWriter
  reply_error accept e w = error_reply accept e w (as_error e)

  -- `ReplyContentError`
  abbrev pub reply_content_error : Text → GoError → ResponseWriter → Option ResponseWriter
  reply_content_error accept e w = reply_error accept e w

-- `WriteContent`
unfoldable pub write_content : Text → Bytes → ResponseWriter → ResponseWriter
write_content content_type body w =
    (write_body body (
      write_header code_ok
        (set_service_headers (set_header (str "Content-Type") content_type w)))).0
