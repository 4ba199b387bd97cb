-- ===== src/Demo/RoundTrip.antt =====
-- Content of the demo, from the client that uploads it to one that downloads it.
use duh_go.Prelude.{
  ℕ, ◌*◌, ◌≤◌, ◌≡◌, refl, ap, ◌∙◌, false, List, [], ◌∷◌, ◌++◌, length, some, Text, str, text_eq,
}
use duh_go.Errors.{Details, index, insert, lookup, Reply, GoError, nil, is_nil, Go}
use duh_go.Errors.Maps.{
  lookup-insert_other, index-insert_same, index-insert_other, lookup-insert_same, if_true,
}
use duh_go.Frames.{Bytes, Result, ok, err}
use duh_go.Media.{Encoding, json, content_type_json}
use duh_go.Service.{reply_message, ResponseWriter, write_content}
use duh_go.Client.{Request, Answer, answered, do_content, do_call}
use duh_go.Client.Arrives.{response_of}
use duh_go.Client.Delivers.{do_call-reply, do_content-write_content}
use duh_go.Demo.Store.{Store, Entry, store_content}
use duh_go.Demo.Router.{replied, Codecs, megabyte, stored_reply, kept_store, serve_http}
use duh_go.Demo.Client.{
  post, post_payload, typed, exchanged, Demo, upload_content, download_content,
}
use duh_go.Demo.Link.{Link, linked, arriving, answer_of}
use duh_go.Demo.Served.{IsFaithful, negotiated_default, serve_http-upload, serve_http-download}

-- The URL of a route is accepted, and its path is the route's.
pub record IsRouted (link : Link) (endpoint route : Text) : Type 0 where
  pub accepted : link.parse_error (endpoint ++ (str "/" ++ route)) ≡ nil
  pub path : link.path_of (endpoint ++ (str "/" ++ route)) ≡ str "/" ++ route

-- The store after further uploads, each of a path, a Content-Type and a body.
unfoldable pub uploaded : List (Text × (Text × Bytes)) → Store → Store
uploaded [] s = s
uploaded ((path, (content_type, body)) ∷ us) s =
    uploaded us (store_content path content_type body s)

-- None of the uploads is of the path.
unfoldable pub Spares : Text → List (Text × (Text × Bytes)) → Type 0
Spares path [] = Unit {0}
Spares path ((other, upload) ∷ us) = (text_eq other path ≡ false) × Spares path us

lookup-uploaded :
    (path : Text) (us : List (Text × (Text × Bytes))) (s : Store)
    → Spares path us
    → lookup path (uploaded us s) ≡ lookup path s
unfolding uploaded Spares
lookup-uploaded path [] s h = refl
lookup-uploaded path ((other, (content_type, body)) ∷ us) s (h, hs) =
    lookup-uploaded path us (store_content other content_type body s) hs
    ∙ lookup-insert_other other path _ s h

module _ {F : Type 0} (codecs : Codecs F) (link : Link) ⦃go : Go⦄ where
  -- A client of the handler behind the link.
  abbrev pub client_at : Text → (Encoding → Bytes → Result Reply) → Demo Store
  client_at endpoint unmarshal_reply = record {
    endpoint = endpoint;
    http = linked link codecs;
    unmarshal_reply = unmarshal_reply;
  }

  module _ (faithful : IsFaithful link) (roomy : (n : ℕ) → 1 ≤ codecs.free n) (endpoint : Text)
      (unmarshal_reply : Encoding → Bytes → Result Reply) where
    -- A client's request that the handler replies to.
    post_lem :
        {A : Type 0} (route : Text) (header : Details) (body : Bytes) (refuse : GoError → A)
        (finish : Request → Answer → A) (s s' : Store) (w : ResponseWriter)
        → IsRouted link endpoint route
        → serve_http codecs
            (arriving link (record {
              method = str "POST";
              url = endpoint ++ (str "/" ++ route);
              header = header;
              body = body;
            }))
            s
            link.fresh
          ≡ some (s', replied w)
        → post (client_at endpoint unmarshal_reply) route header body refuse finish s ≡ (
          s',
          finish
              (record { method = str "POST"; url = endpoint ++ (str "/" ++ route) })
              (answered (response_of link.status w)),
        )
    post_lem route header body refuse finish s s' w routed served =
        if_true _ (is_nil (link.parse_error (endpoint ++ (str "/" ++ route))))
          (ap is_nil routed.accepted)
        ∙ ap
            (λ a.
              exchanged (client_at endpoint unmarshal_reply) finish
                (record {
                  method = str "POST";
                  url = endpoint ++ (str "/" ++ route);
                  header = header;
                  body = body;
                })
                (answer_of link s a))
            served

    upload_content_lem :
        (path content_type : Text) (b reply_bytes : Bytes) (s : Store)
        → IsRouted link endpoint (str "v1/content.upload")
        → text_eq path [] ≡ false
        → length b ≤ 10 * megabyte
        → codecs.marshal json (reply_message (stored_reply codecs path b)) ≡ ok reply_bytes
        → unmarshal_reply json reply_bytes ≡ ok (stored_reply codecs path b)
        → upload_content (client_at endpoint unmarshal_reply) path content_type b s
          ≡ (store_content path content_type b s, ok (stored_reply codecs path b))
    unfolding upload_content text_eq index lookup
    upload_content_lem path content_type b reply_bytes s routed e h m u =
        let header = insert (str "X-RPC-Path") path (typed content_type) in
        let (w, sent, got) =
          do_call-reply unmarshal_reply unmarshal_reply codecs.marshal []
            (reply_message (stored_reply codecs path b)) (stored_reply codecs path b) link.fresh
            json reply_bytes
            (record { method = str "POST"; url = endpoint ++ str "/v1/content.upload" }) link.status
            negotiated_default m u faithful.unsent in
        post_lem (str "v1/content.upload") header b err (do_call unmarshal_reply unmarshal_reply) s
          (store_content path content_type b s) w routed
          (serve_http-upload codecs link faithful roomy (endpoint ++ str "/v1/content.upload") path
              content_type header b s routed.path h
              (index-insert_same (str "X-RPC-Path") path (typed content_type))
              (index-insert_other (str "X-RPC-Path") (str "Content-Type") path (typed content_type)
                  refl
                ∙ index-insert_same (str "Content-Type") content_type [])
              (index-insert_other (str "X-RPC-Path") (str "Accept") path (typed content_type) refl
                ∙ index-insert_other (str "Content-Type") (str "Accept") content_type [] refl)
              e
            ∙ ap (kept_store codecs (store_content path content_type b s)) sent)
        ∙ ap (λ r. (store_content path content_type b s, r)) got

    download_content_lem :
        (marshal : Text → Result Bytes) (path : Text) (p : Bytes) (entry : Entry) (s : Store)
        → IsRouted link endpoint (str "v1/content.download")
        → marshal path ≡ ok p
        → length p ≤ 5 * megabyte
        → codecs.download_request json p ≡ ok path
        → lookup path s ≡ some entry
        → (header : Details) × (download_content (client_at endpoint unmarshal_reply) marshal path s
            ≡ (s, (entry.body, ok header)))
          × (index (str "Content-Type") header ≡ entry.content_type)
    unfolding download_content
    download_content_lem marshal path p entry s routed m h d f =
        let header = typed content_type_json in
        let (headers, got, type_kept) =
          do_content-write_content unmarshal_reply entry.content_type entry.body link.fresh
            (record { method = str "POST"; url = endpoint ++ str "/v1/content.download" })
            link.status faithful.unsent in
        (
          headers,
          ap
                (λ r.
                  post_payload (client_at endpoint unmarshal_reply) (str "v1/content.download")
                    header r (λ e. ([], err e)) (do_content unmarshal_reply) s)
                m
              ∙ (post_lem (str "v1/content.download") header p (λ e. ([], err e))
                    (do_content unmarshal_reply) s s
                    (write_content entry.content_type entry.body link.fresh) routed
                    (serve_http-download codecs link faithful roomy
                      (endpoint ++ str "/v1/content.download") path header p entry s routed.path h
                      (index-insert_same (str "Content-Type") content_type_json []) d f)
                  ∙ ap (λ r. (s, r)) got),
          type_kept,
        )

    -- Content that `UploadContent` stores under a path that is not empty, of at most ten megabytes, is
    -- what `DownloadContent` gets from that path, with its Content-Type, also after uploads under
    -- other paths, if the messages in between have encodings that decode and the path's takes at most
    -- five megabytes.
    pub upload_content-download_content :
        (marshal : Text → Result Bytes) (path content_type : Text) (b reply_bytes p : Bytes)
        (us : List (Text × (Text × Bytes))) (s : Store)
        → IsRouted link endpoint (str "v1/content.upload")
        → IsRouted link endpoint (str "v1/content.download")
        → text_eq path [] ≡ false
        → length b ≤ 10 * megabyte
        → codecs.marshal json (reply_message (stored_reply codecs path b)) ≡ ok reply_bytes
        → unmarshal_reply json reply_bytes ≡ ok (stored_reply codecs path b)
        → marshal path ≡ ok p
        → length p ≤ 5 * megabyte
        → codecs.download_request json p ≡ ok path
        → Spares path us
        → let c = client_at endpoint unmarshal_reply in
          let s' = uploaded us (store_content path content_type b s) in
          (upload_content c path content_type b s
            ≡ (store_content path content_type b s, ok (stored_reply codecs path b)))
          × ((header : Details) × (download_content c marshal path s' ≡ (s', (b, ok header)))
              × (index (str "Content-Type") header ≡ content_type))
    upload_content-download_content marshal path content_type b reply_bytes p us s up down e h m u n
          l d spared =
        (
          upload_content_lem path content_type b reply_bytes s up e h m u,
          download_content_lem marshal path p (record { content_type = content_type; body = b })
              (uploaded us (store_content path content_type b s)) down n l d
              (lookup-uploaded path us (store_content path content_type b s) spared
                ∙ lookup-insert_same path _ s),
        )
