-- ===== src/Service/StreamStart.antt =====
-- The beginning of `HandleStream` of streaming.go, before the writer is made.
use duh_go.Prelude.{[], ◌++◌, Option, Text, str, if◌then◌else◌, text_eq}
use duh_go.Errors.{Go, code_internal_error, code_bad_request}
use duh_go.Frames.{Bytes, Result}
use duh_go.Media.{
  Encoding, json, protobuf, normalize_media_type, content_stream_json, content_stream_proto_buf,
}
use duh_go.Service.{Message, ResponseWriter, set_header, set_service_headers, reply_with_code}

-- A request that is refused with a reply, or a stream in an encoding, with its headers set.
pub data Opening : Type 0 where
  refused : Option ResponseWriter → Opening
  opened : Encoding → ResponseWriter → Opening

unfoldable pub bad_stream_accept : Text → Text
bad_stream_accept accept =
    str "Accept header '"
    ++ (accept
        ++ (str "' is not a supported streaming content type; expected '"
            ++ (content_stream_json ++ (str "' or '" ++ (content_stream_proto_buf ++ str "'")))))

abbrev pub stream_headers : Text → ResponseWriter → ResponseWriter
stream_headers media w = set_service_headers (set_header (str "Content-Type") media w)

module _ {M : Type 0} (marshal : Encoding → Message M → Result Bytes) ⦃go : Go⦄ where
  -- `HandleStream` up to the headers of the response.
  unfoldable pub open_stream : Text → ResponseWriter → Opening
  open_stream accept w =
      if w.can_flush
      then if text_eq content_stream_json (normalize_media_type accept)
        then opened json (stream_headers content_stream_json w)
        else if text_eq content_stream_proto_buf (normalize_media_type accept)
        then opened protobuf (stream_headers content_stream_proto_buf w)
        else refused
            (reply_with_code marshal accept code_bad_request [] (bad_stream_accept accept) w)
      else refused (
          reply_with_code marshal accept code_internal_error []
            (str "response writer does not support streaming") w)
