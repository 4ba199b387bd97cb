-- ===== src/Client/Delivers.antt =====
-- What a handler of service.go replies with, at the caller of client.go's Do and DoContent.
use duh_go.Prelude.{ℕ, [], ◌++◌, length, Option, none, some, Text, str, text_eq}
use duh_go.Prelude.{◌≡◌, refl, ap, ◌∙◌}
use duh_go.Errors.{Details, index, insert, Reply, sentinel, eof, Go}
use duh_go.Errors.Maps.{index-insert_same, index-insert_other}
use duh_go.Errors.Codes.{code_ok}
use duh_go.Frames.{clip, Bytes, Result, ok, write}
use duh_go.Media.{Encoding, negotiate, normalize_media_type, unmarshal_for_media_type}
use duh_go.Service.{
  Message, ResponseWriter, send_reply, reply, write_content, write_body, write_header,
  set_service_headers, commit,
}
use duh_go.Client.{Request, Response, answered, copy_body, decode, parsed, do_call, do_content}
use duh_go.Client.Arrives.{
  response_of, IsUnsent, committed_code, committed_header, reply_sends, send_reply_response,
  reply_response, reply_header_type, recognized,
}

module _ (unmarshal_reply : Encoding → Bytes → Result Reply) ⦃go : Go⦄ where
  module _ {N : Type 0} (unmarshal : Encoding → Bytes → Result N) where
    do_call-reply_response :
        (req : Request) (status : Text) (enc : Encoding) (b : Bytes) (header : Details) (msg : N)
        → unmarshal enc b ≡ ok msg
        → do_call unmarshal_reply unmarshal req
            (answered (reply_response status enc code_ok b header))
          ≡ ok msg
    unfolding do_call copy_body
    do_call-reply_response req status enc b header msg u =
        let resp = reply_response status enc code_ok b header in
        ap (λ t. decode unmarshal_reply unmarshal req resp b (unmarshal_for_media_type t))
          (reply_header_type enc header)
        ∙ (ap (decode unmarshal_reply unmarshal req resp b) (recognized enc)
            ∙ ap (parsed unmarshal_reply unmarshal b) u)

    -- A message that a handler gives to `Reply` with the status 200 is the one that `Do` returns, in the
    -- encoding that the request's Accept header asks for, if the message has an encoding that decodes.
    pub do_call-reply :
        {M : Type 0} (marshal : Encoding → Message M → Result Bytes) (accept : Text)
        (sent : Message M) (msg : N) (w : ResponseWriter) (enc : Encoding) (b : Bytes)
        (req : Request) (status : Text)
        → negotiate (normalize_media_type accept) ≡ some enc
        → marshal enc sent ≡ ok b
        → unmarshal enc b ≡ ok msg
        → IsUnsent w
        → (w' : ResponseWriter) × (reply marshal accept code_ok sent w ≡ some w')
          × (do_call unmarshal_reply unmarshal req (answered (response_of status w')) ≡ ok msg)
    do_call-reply marshal accept sent msg w enc b req status n m u unsent = (
      send_reply marshal enc code_ok b w,
      reply_sends marshal accept code_ok sent w enc b n m,
      ap (λ r. do_call unmarshal_reply unmarshal req (answered r))
            (send_reply_response marshal enc code_ok b w status unsent)
          ∙ do_call-reply_response req status enc b w.header msg u,
    )

  unfoldable content_header : Text → Details → Details
  content_header content_type header =
      insert (str "X-Content-Type-Options") (str "nosniff")
        (insert (str "X-DUH-Version") (str "2.0") (insert (str "Content-Type") content_type header))

  content_header_type :
      (content_type : Text) (header : Details)
      → index (str "Content-Type") (content_header content_type header) ≡ content_type
  unfolding content_header text_eq
  content_header_type content_type header =
      index-insert_other (str "X-Content-Type-Options") (str "Content-Type") _ _ refl
      ∙ (index-insert_other (str "X-DUH-Version") (str "Content-Type") _ _ refl
          ∙ index-insert_same (str "Content-Type") _ _)

  write_content_response :
      (content_type : Text) (b : Bytes) (w : ResponseWriter) (status : Text)
      → IsUnsent w
      → response_of status (write_content content_type b w) ≡ record {
        status_code = code_ok;
        status = status;
        header = content_header content_type w.header;
        body = record { bytes = b; ending = sentinel eof };
      }
  unfolding write_content response_of write_body write_header set_service_headers write
      content_header
  write_content_response content_type b w status unsent =
      ap (λ c. shape c w.sink.written w.sink.room) unsent.uncommitted
      ∙ (ap (λ bytes. shape none bytes w.sink.room) unsent.empty
          ∙ ap (λ room. shape none [] room) unsent.unbroken)
    where
      shape : Option (ℕ × Details) → Bytes → Option ℕ → Response
      shape c bytes room =
          let once = commit code_ok (content_header content_type w.header) in
          record {
            status_code = committed_code (once (once c));
            status = status;
            header = committed_header (once (once c));
            body = record { bytes = bytes ++ clip room (length bytes) b; ending = sentinel eof };
          }

  -- What a handler gives to `WriteContent` is what `DoContent` appends to the caller's buffer, and the
  -- headers that it returns have the Content-Type that the handler gave.
  pub do_content-write_content :
      (content_type : Text) (b : Bytes) (w : ResponseWriter) (req : Request) (status : Text)
      → IsUnsent w
      → (header : Details) × (do_content unmarshal_reply req
            (answered (response_of status (write_content content_type b w)))
          ≡ (b, ok header))
        × (index (str "Content-Type") header ≡ content_type)
  unfolding do_content copy_body
  do_content-write_content content_type b w req status unsent = (
    content_header content_type w.header,
    ap (λ r. do_content unmarshal_reply req (answered r))
        (write_content_response content_type b w status unsent),
    content_header_type content_type w.header,
  )
