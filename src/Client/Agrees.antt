-- ===== src/Client/Agrees.antt =====
-- The encoding of a stream, on both sides: streaming.go and client.go.
use duh_go.Prelude.{some, Text, str, text_eq, ◌≡◌, refl, ap, ◌∙◌, if_intro}
use duh_go.Errors.{Reply, index, Go}
use duh_go.Errors.Maps.{index-insert_same, index-insert_other}
use duh_go.Frames.{Bytes, Result}
use duh_go.Media.{
  Encoding, json, protobuf, normalize_media_type, content_stream_json, content_stream_proto_buf,
  trim_suffix, is_any, to_lower, lower, trim_space, trim_left, trim_right, drop_space, is_space,
}
use duh_go.Service.{Message, ResponseWriter, set_service_headers}
use duh_go.Service.StreamStart.{Opening, refused, opened, open_stream, stream_headers}
use duh_go.Client.{stream_encoding}

stream_headers_type :
    (media : Text) (w : ResponseWriter)
    → index (str "Content-Type") (stream_headers media w).header ≡ media
unfolding set_service_headers text_eq
stream_headers_type media w =
    index-insert_other (str "X-Content-Type-Options") (str "Content-Type") _ _ refl
    ∙ (index-insert_other (str "X-DUH-Version") (str "Content-Type") _ _ refl
        ∙ index-insert_same (str "Content-Type") _ _)

module _ (unmarshal_reply : Encoding → Bytes → Result Reply) ⦃go : Go⦄ where
  -- The client reads the encoding off the headers.
  abbrev pub Agreed : Opening → Type 0
  Agreed (refused o) = Unit
  Agreed (opened enc w) =
      stream_encoding unmarshal_reply (normalize_media_type (index (str "Content-Type") w.header))
      ≡ some enc

  json_known :
      stream_encoding unmarshal_reply (normalize_media_type content_stream_json) ≡ some json
  unfolding normalize_media_type trim_suffix is_any to_lower lower trim_space trim_left trim_right
      drop_space is_space text_eq
  json_known = refl

  protobuf_known :
      stream_encoding unmarshal_reply (normalize_media_type content_stream_proto_buf)
      ≡ some protobuf
  unfolding normalize_media_type trim_suffix is_any to_lower lower trim_space trim_left trim_right
      drop_space is_space text_eq
  protobuf_known = refl

  -- Where `HandleStream` opens a stream, `DoStream` reads it in the encoding in which it is written.
  pub open_stream-Agreed :
      {M : Type 0} (marshal : Encoding → Message M → Result Bytes) (accept : Text)
      (w : ResponseWriter)
      → Agreed (open_stream marshal accept w)
  unfolding open_stream
  open_stream-Agreed marshal accept w =
      if_intro Agreed w.can_flush
        (λ _.
          if_intro Agreed (text_eq content_stream_json (normalize_media_type accept))
            (λ _.
              ap (λ t. stream_encoding unmarshal_reply (normalize_media_type t))
                (stream_headers_type content_stream_json w)
              ∙ json_known)
            (λ _.
              if_intro Agreed (text_eq content_stream_proto_buf (normalize_media_type accept))
                (λ _.
                  ap (λ t. stream_encoding unmarshal_reply (normalize_media_type t))
                    (stream_headers_type content_stream_proto_buf w)
                  ∙ protobuf_known)
                (λ _. tt)))
        (λ _. tt)
