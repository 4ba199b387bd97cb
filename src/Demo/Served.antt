-- ===== src/Demo/Served.antt =====
-- The handler's routes for content, behind a connection that carries every byte.
use duh_go.Prelude.{
  ℕ, ◌+◌, ◌*◌, ◌≤◌, ◌<◌, ◌^◌, ◌≡◌, refl, ap, ◌∙◌, arith, false, [], length, none, some, Text, str,
  text_eq, pos,
}
use duh_go.Errors.{code_ok, Details, index, lookup, nil, is_nil, sentinel, eof, Go}
use duh_go.Errors.Maps.{if_false}
use duh_go.Frames.{Bytes, Result, ok}
use duh_go.Media.{
  Encoding, json, content_type_json, negotiate, normalize_media_type, trim_suffix, is_any, to_lower,
  lower, trim_space, trim_left, trim_right, drop_space, is_space,
}
use duh_go.Body.{copy_request}
use duh_go.Body.Limits.{content, ending, outcome, copy_request_within}
use duh_go.Service.{reply_message, reply, ResponseWriter, write_content}
use duh_go.Service.Requests.{
  read_content, received, with_type, read_request, read_message, decode_body, decoded,
}
use duh_go.Client.Arrives.{IsUnsent}
use duh_go.Demo.Store.{Store, Entry, store_content, get_content, found_entry}
use duh_go.Demo.Router.{
  Incoming, replied, Codecs, megabyte, stored_reply, with_read, upload_to, download, kept_store,
  serve_http, handle_content_upload, handle_content_download,
}
use duh_go.Demo.Link.{Link, arriving}

-- What the connection keeps: every byte of a request's body, and the response is a new one.
pub record IsFaithful (link : Link) : Type 0 where
  pub carries : (b : Bytes) → content (link.carry b) ≡ b
  pub ends : (b : Bytes) → ending (link.carry b) ≡ sentinel eof
  pub unsent : IsUnsent link.fresh

-- What the media types compute with.
pub negotiated : ⦃go : Go⦄ → negotiate (normalize_media_type content_type_json) ≡ some json
unfolding negotiate normalize_media_type trim_suffix is_any to_lower lower trim_space trim_left
    trim_right drop_space is_space text_eq
negotiated = refl

pub negotiated_default : ⦃go : Go⦄ → negotiate (normalize_media_type []) ≡ some json
unfolding negotiate normalize_media_type trim_suffix is_any to_lower lower trim_space trim_left
    trim_right drop_space is_space text_eq
negotiated_default = refl

module _ {F : Type 0} (codecs : Codecs F) (link : Link) ⦃go : Go⦄ where
  module _ (faithful : IsFaithful link) (roomy : (n : ℕ) → 1 ≤ codecs.free n) where
    -- A body within the limit is read whole.
    copy_request-carry :
        (limit : ℕ) (b : Bytes)
        → 1 ≤ limit
        → limit + 1 < 2 ^ 63
        → length b ≤ limit
        → copy_request codecs.free (pos limit) (link.carry b) ≡ some (b, nil)
    unfolding outcome
    copy_request-carry limit b l w h =
        copy_request_within codecs.free roomy limit (link.carry b) l w
          (omega (arith, ap length (faithful.carries b))) (ap is_nil (faithful.ends b))
        ∙ (ap (λ c. some (outcome c (ending (link.carry b)))) (faithful.carries b)
            ∙ ap (λ e. some (outcome b e)) (faithful.ends b))

    -- `ReadContent` in `handleContentUpload`.
    read_content-carry :
        (header : Details) (b : Bytes)
        → length b ≤ 10 * megabyte
        → read_content codecs.free header (link.carry b) (pos (10 * megabyte))
          ≡ some (ok (b, index (str "Content-Type") header))
    unfolding read_content received
    read_content-carry header b h =
        ap (λ c. elim c [ none ↦ none | some c ↦ some (with_type header (received c)) ])
          (copy_request-carry (10 * megabyte) b (omega arith) (omega arith) h)

    pub read_request-carry :
        {M : Type 0} (unmarshal : Encoding → Bytes → Result M) (header : Details) (b : Bytes)
        (req : M)
        → index (str "Content-Type") header ≡ content_type_json
        → length b ≤ 5 * megabyte
        → unmarshal json b ≡ ok req
        → read_request unmarshal codecs.free header (link.carry b) (pos (5 * megabyte))
          ≡ some (ok req)
    unfolding read_request received
    read_request-carry unmarshal header b req t h u =
        ap
          (λ c. elim c [
            | none ↦ none
            | some c ↦
                some (read_message unmarshal (index (str "Content-Type") header) (received c))
          ])
          (copy_request-carry (5 * megabyte) b (omega arith) (omega arith) h)
        ∙ ap (λ o. some o)
            (ap (λ t. decode_body unmarshal t b (negotiate (normalize_media_type t))) t
              ∙ (ap (decode_body unmarshal content_type_json b) negotiated
                  ∙ ap (decoded unmarshal) u))

    -- The request of the client's `UploadContent` in the handler.
    pub serve_http-upload :
        (url path content_type : Text) (header : Details) (b : Bytes) (s : Store)
        → link.path_of url ≡ str "/v1/content.upload"
        → length b ≤ 10 * megabyte
        → index (str "X-RPC-Path") header ≡ path
        → index (str "Content-Type") header ≡ content_type
        → index (str "Accept") header ≡ []
        → text_eq path [] ≡ false
        → serve_http codecs
            (arriving link (record { method = str "POST"; url = url; header = header; body = b }))
            s
            link.fresh
          ≡ kept_store codecs (store_content path content_type b s) (
              reply codecs.marshal [] code_ok
                (reply_message (stored_reply codecs path b))
                link.fresh)
    unfolding serve_http handle_content_upload text_eq
    serve_http-upload url path content_type header b s u h p t a e =
        let sent : Text → Incoming =
          λ q. record { method = str "POST"; path = q; header = header; body = link.carry b } in
        let r = sent (str "/v1/content.upload") in
        ap (λ q. serve_http codecs (sent q) s link.fresh) u
        ∙ (ap
              (λ got.
                with_read codecs
                  (λ (b : Bytes × Text) s w.
                    upload_to codecs (index (str "X-RPC-Path") header) b.1 b.0 r s w)
                  r got s link.fresh)
              (read_content-carry header b h)
            ∙ (ap (λ q. upload_to codecs q (index (str "Content-Type") header) b r s link.fresh) p
                ∙ (ap (λ c. upload_to codecs path c b r s link.fresh) t
                    ∙ (if_false _ (text_eq path []) e
                        ∙ ap
                            (λ q. kept_store codecs (store_content path content_type b s) (
                              reply codecs.marshal q code_ok
                                (reply_message (stored_reply codecs path b)) link.fresh))
                            a))))

    handle_content_download_lem :
        (r : Incoming) (path : Text) (p : Bytes) (entry : Entry) (s : Store) (w : ResponseWriter)
        → r.body ≡ link.carry p
        → length p ≤ 5 * megabyte
        → index (str "Content-Type") r.header ≡ content_type_json
        → codecs.download_request json p ≡ ok path
        → lookup path s ≡ some entry
        → handle_content_download codecs r s w
          ≡ some (s, replied (write_content entry.content_type entry.body w))
    unfolding handle_content_download get_content
    handle_content_download_lem r path p entry s w b h t d f =
        ap (λ got. with_read codecs (λ q s w. download codecs r (get_content q s) s w) r got s w)
          (ap
              (λ b.
                read_request codecs.download_request codecs.free r.header b (pos (5 * megabyte)))
              b
            ∙ read_request-carry codecs.download_request r.header p path t h d)
        ∙ ap (λ o. download codecs r (found_entry o) s w) f

    pub serve_http-download :
        (url path : Text) (header : Details) (p : Bytes) (entry : Entry) (s : Store)
        → link.path_of url ≡ str "/v1/content.download"
        → length p ≤ 5 * megabyte
        → index (str "Content-Type") header ≡ content_type_json
        → codecs.download_request json p ≡ ok path
        → lookup path s ≡ some entry
        → serve_http codecs
            (arriving link (record { method = str "POST"; url = url; header = header; body = p }))
            s
            link.fresh
          ≡ some (s, replied (write_content entry.content_type entry.body link.fresh))
    unfolding serve_http text_eq
    serve_http-download url path header p entry s u h t d f =
        let sent : Text → Incoming =
          λ q. record { method = str "POST"; path = q; header = header; body = link.carry p } in
        ap (λ q. serve_http codecs (sent q) s link.fresh) u
        ∙ handle_content_download_lem (sent (str "/v1/content.download")) path p entry s link.fresh
            refl h t d f
