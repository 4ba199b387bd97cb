-- ===== src/Client/Arrives.antt =====
-- An error from a handler of service.go to the caller of client.go.
use duh_go.Prelude.{ℕ, false, [], ◌++◌, length, Option, none, some, Text, str, text_eq}
use duh_go.Prelude.{◌≡◌, refl, ap, ◌∙◌}
use duh_go.Errors.{
  Details, index, insert, Reply, GoError, nil, sentinel, eof, client, ClientError, Go,
}
use duh_go.Errors.Chain.{Error, as_error}
use duh_go.Errors.Maps.{index-insert_same, index-insert_other}
use duh_go.Errors.Codes.{code_ok}
use duh_go.Frames.{clip, Bytes, Result, ok, write}
use duh_go.Media.{
  trim_suffix, is_any, to_lower, lower, trim_space, trim_left, trim_right, drop_space, is_space,
  Encoding, json, protobuf, negotiate, normalize_media_type, unmarshal_for_media_type,
  content_type_of,
}
use duh_go.Service.{
  Message, reply_message, ResponseWriter, send_reply, reply, reply_calls, reply_error, error_reply,
  write_body, write_header, set_service_headers, commit,
}
use duh_go.Service.Total.{negotiated_lem}
use duh_go.Client.{
  Request, Response, copy_body, new_reply_error, handle_error_response, reply_or_infra, classify,
}

-- The response that the client gets, once the handler has returned.
abbrev pub committed_code : Option (ℕ × Details) → ℕ
committed_code none = 200
committed_code (some c) = c.0

abbrev pub committed_header : Option (ℕ × Details) → Details
committed_header none = []
committed_header (some c) = c.1

unfoldable pub response_of : Text → ResponseWriter → Response
response_of status w = record {
  status_code = committed_code w.committed;
  status = status;
  header = committed_header w.committed;
  body = record { bytes = w.sink.written; ending = sentinel eof };
}

-- A response of which nothing has been sent, on a connection that does not break.
pub record IsUnsent (w : ResponseWriter) : Type 0 where
  pub uncommitted : w.committed ≡ none
  pub empty : w.sink.written ≡ []
  pub unbroken : w.sink.room ≡ none

unfoldable pub reply_header : Encoding → Details → Details
reply_header enc header = insert (str "X-Content-Type-Options") (str "nosniff") (
    insert (str "X-DUH-Version") (str "2.0")
      (insert (str "Content-Type") (content_type_of enc) header))

pub reply_header_type :
    ⦃go : Go⦄ (enc : Encoding) (header : Details)
    → index (str "Content-Type") (reply_header enc header) ≡ content_type_of enc
unfolding reply_header text_eq
reply_header_type enc header =
    index-insert_other (str "X-Content-Type-Options") (str "Content-Type") _ _ refl
    ∙ (index-insert_other (str "X-DUH-Version") (str "Content-Type") _ _ refl
        ∙ index-insert_same (str "Content-Type") _ _)

abbrev pub reply_response : Text → Encoding → ℕ → Bytes → Details → Response
reply_response status enc code b header = record {
  status_code = code;
  status = status;
  header = reply_header enc header;
  body = record { bytes = b; ending = sentinel eof };
}

pub recognized :
    ⦃go : Go⦄ (enc : Encoding) → unmarshal_for_media_type (content_type_of enc) ≡ some enc
unfolding unmarshal_for_media_type normalize_media_type trim_suffix is_any to_lower lower trim_space
    trim_left trim_right drop_space is_space text_eq
recognized json = refl
recognized protobuf = refl

module _ {M : Type 0} (marshal : Encoding → Message M → Result Bytes) ⦃go : Go⦄ where
  pub reply_sends :
      (accept : Text) (code : ℕ) (msg : Message M) (w : ResponseWriter) (enc : Encoding) (b : Bytes)
      → negotiate (normalize_media_type accept) ≡ some enc
      → marshal enc msg ≡ ok b
      → reply marshal accept code msg w ≡ some (send_reply marshal enc code b w)
  unfolding reply reply_calls
  reply_sends accept code msg w enc b n m =
      negotiated_lem marshal (λ a c r. reply_calls marshal 2 a c (reply_message r) w) accept code
        msg w _ enc b n m

  pub send_reply_response :
      (enc : Encoding) (code : ℕ) (b : Bytes) (w : ResponseWriter) (status : Text)
      → IsUnsent w
      → response_of status (send_reply marshal enc code b w)
        ≡ reply_response status enc code b w.header
  unfolding send_reply response_of write_body write_header set_service_headers write reply_header
  send_reply_response enc code b w status unsent =
      ap (λ c. shape c w.sink.written w.sink.room) unsent.uncommitted
      ∙ (ap (λ bytes. shape none bytes w.sink.room) unsent.empty
          ∙ ap (λ room. shape none [] room) unsent.unbroken)
    where
      shape : Option (ℕ × Details) → Bytes → Option ℕ → Response
      shape c bytes room = record {
        status_code = committed_code (
            commit code_ok (reply_header enc w.header) (commit code (reply_header enc w.header) c));
        status = status;
        header = committed_header (
            commit code_ok (reply_header enc w.header) (commit code (reply_header enc w.header) c));
        body = record { bytes = bytes ++ clip room (length bytes) b; ending = sentinel eof };
      }

  -- The response in which an error that carries a code is sent.
  pub reply_error-reply_response :
      (accept : Text) (e : GoError) (found : Error) (w : ResponseWriter) (enc : Encoding)
      (b : Bytes) (status : Text)
      → as_error e ≡ some found
      → negotiate (normalize_media_type accept) ≡ some enc
      → marshal enc (reply_message found.proto_message) ≡ ok b
      → IsUnsent w
      → (w' : ResponseWriter) × (reply_error marshal accept e w ≡ some w')
        × (response_of status w' ≡ reply_response status enc found.http_code b w.header)
  unfolding reply_error
  reply_error-reply_response accept e found w enc b status a n m unsent = (
    send_reply marshal enc found.http_code b w,
    ap (error_reply marshal accept e w) a
        ∙ reply_sends accept found.http_code (reply_message found.proto_message) w enc b n m,
    send_reply_response enc found.http_code b w status unsent,
  )

  module _ (unmarshal_reply : Encoding → Bytes → Result Reply) where
    handles_reply :
        (req : Request) (status : Text) (enc : Encoding) (code : ℕ) (b : Bytes) (header : Details)
        (r : Reply)
        → unmarshal_reply enc b ≡ ok r
        → handle_error_response unmarshal_reply req (reply_response status enc code b header)
          ≡ new_reply_error req (reply_response status enc code b header) r
    unfolding handle_error_response copy_body
    handles_reply req status enc code b header r u =
        let resp = reply_response status enc code b header in
        ap (λ t. classify unmarshal_reply req resp b (unmarshal_for_media_type t))
          (reply_header_type enc header)
        ∙ (ap (classify unmarshal_reply req resp b) (recognized enc)
            ∙ ap (reply_or_infra unmarshal_reply req resp b) u)

    -- The client has got the error of a service: its code, status code and message.
    abbrev pub Arrived : Error → GoError → Type 0
    Arrived found e =
        (c : ClientError) × (e ≡ client c nil)
        × (c.code ≡ found.proto_message.code)
        × (c.http_code ≡ found.http_code)
        × (c.msg ≡ found.proto_message.message)
        × (c.is_infra_error ≡ false)

    pub new_reply_error-Arrived :
        (req : Request) (status : Text) (enc : Encoding) (b : Bytes) (header : Details)
        (found : Error)
        → Arrived found (
            new_reply_error req
              (reply_response status enc found.http_code b header)
              found.proto_message)
    unfolding new_reply_error
    new_reply_error-Arrived req status enc b header found = (_, refl, refl, refl, refl, refl)

    -- Whatever `ReplyError` sends for an error that carries a code, the client makes a service's error
    -- of it.
    pub reply_error-new_reply_error :
        (accept : Text) (e : GoError) (found : Error) (w : ResponseWriter) (enc : Encoding)
        (b : Bytes) (req : Request) (status : Text)
        → as_error e ≡ some found
        → negotiate (normalize_media_type accept) ≡ some enc
        → marshal enc (reply_message found.proto_message) ≡ ok b
        → unmarshal_reply enc b ≡ ok found.proto_message
        → IsUnsent w
        → (w' : ResponseWriter) × (reply_error marshal accept e w ≡ some w')
          × (response_of status w' ≡ reply_response status enc found.http_code b w.header)
          × (handle_error_response unmarshal_reply req (response_of status w')
              ≡ new_reply_error req
                  (reply_response status enc found.http_code b w.header)
                  found.proto_message)
    reply_error-new_reply_error accept e found w enc b req status a n m u unsent =
        let (w', sent, same) =
          reply_error-reply_response accept e found w enc b status a n m unsent in
        (
          w',
          sent,
          same,
          ap (handle_error_response unmarshal_reply req) same
              ∙ handles_reply req status enc found.http_code b w.header found.proto_message u,
        )
