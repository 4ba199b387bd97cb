-- ===== src/Client/Refused.antt =====
-- An error of service.go that answers a request for a stream, at `DoStream` of client.go.
use duh_go.Prelude.{false, some, Text, ◌≡◌, sym, ap, ◌∙◌, ◌==◌, ℤ}
use duh_go.Errors.{GoError, sentinel, eof, Go, Reply, code_ok}
use duh_go.Errors.Chain.{Error, as_error}
use duh_go.Errors.Maps.{if_false}
use mathlib.Core.Path.{subst}
use duh_go.Frames.{Bytes, Source, Result, ok, err}
use duh_go.Media.{Encoding, negotiate, normalize_media_type}
use duh_go.Service.{Message, reply_message, ResponseWriter, reply_error}
use duh_go.Client.{Request, Response, answered, handle_error_response, do_stream}
use duh_go.Client.Arrives.{
  response_of, IsUnsent, Arrived, reply_error-new_reply_error, new_reply_error-Arrived,
}

-- A body that ends behind these bytes.
abbrev pub whole : Bytes → Source
whole b = record { bytes = b; ending = sentinel eof }

module _ {M : Type 0} (marshal : Encoding → Message M → Result Bytes)
    (unmarshal_reply : Encoding → Bytes → Result Reply) (canceled : Source → Source)
    (context_error : GoError) ⦃go : Go⦄ where
  do_stream-handle_error_response :
      (max timeout : ℤ) (req : Request) (resp : Response)
      → (resp.status_code == code_ok) ≡ false
      → do_stream unmarshal_reply canceled context_error max timeout req (answered resp)
        ≡ err
            (handle_error_response unmarshal_reply req (record resp { body = canceled resp.body }))
  unfolding do_stream
  do_stream-handle_error_response max timeout req resp h = if_false _ _ h

  -- An error that a service gives to `ReplyError` for a request of `DoStream`, of the package's
  -- `Error` types or wrapping one, with a code other than 200, arrives as a service's error with the
  -- same code, status code and message, though `DoStream` cancels the request before it reads the
  -- body: if the whole body has arrived by then, so that it can be read all the same, the Reply has
  -- an encoding that decodes, the Accept header is one that `Reply` knows, and the response is a new
  -- one, on a connection that does not break.
  pub reply_error-do_stream :
      (accept : Text) (e : GoError) (found : Error) (w : ResponseWriter) (enc : Encoding)
      (b : Bytes) (req : Request) (status : Text) (max timeout : ℤ)
      → as_error e ≡ some found
      → negotiate (normalize_media_type accept) ≡ some enc
      → marshal enc (reply_message found.proto_message) ≡ ok b
      → unmarshal_reply enc b ≡ ok found.proto_message
      → IsUnsent w
      → (found.http_code == code_ok) ≡ false
      → canceled (whole b) ≡ whole b
      → (w' : ResponseWriter) × (reply_error marshal accept e w ≡ some w')
        × ((x : GoError) × (do_stream unmarshal_reply canceled context_error max timeout req
                (answered (response_of status w'))
              ≡ err x)
            × Arrived marshal unmarshal_reply found x)
  reply_error-do_stream accept e found w enc b req status max timeout c n m u unsent failed kept =
      let (w', sent, shape, same) =
        reply_error-new_reply_error marshal unmarshal_reply accept e found w enc b req status c n m
          u unsent in
      let other = ap (λ (r : Response). r.status_code == code_ok) shape ∙ failed in
      let read : canceled (response_of status w').body ≡ (response_of status w').body =
        ap (λ (r : Response). canceled r.body) shape
        ∙ (kept ∙ sym (ap (λ (r : Response). r.body) shape)) in
      (
        w',
        sent,
        (
          _,
          do_stream-handle_error_response max timeout req _ other,
          subst (Arrived marshal unmarshal_reply found)
              (sym (
                ap
                  (λ body.
                    handle_error_response unmarshal_reply req
                      (record (response_of status w') { body = body }))
                  read
                ∙ same))
              (new_reply_error-Arrived marshal unmarshal_reply req status enc b w.header found),
        ),
      )
