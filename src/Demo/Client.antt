-- ===== src/Demo/Client.antt =====
-- The client of demo/client.go, over what `http.NewRequestWithContext` and the HTTP client do.
use duh_go.Prelude.{[], ◌++◌, Text, str, if◌then◌else◌, ℤ, Option, none, some}
use duh_go.Errors.{Details, insert, GoError, is_nil, Reply, Go}
use duh_go.Frames.{Bytes, Source, Result, ok, err}
use duh_go.Media.{
  Encoding, content_type_json, content_type_proto_buf, content_octet_stream, content_stream_json,
}
use duh_go.Streaming.Reader.{StreamReader}
use duh_go.Client.{Request, Answer, new_client_error, do_call, do_stream, do_bytes, do_content}

-- An `http.Request`, as the client makes it.
pub record Outgoing : Type 0 where
  pub method : Text
  pub url : Text
  pub header : Details
  pub body : Bytes

-- The error with which a URL is refused, or nil, an exchange in a world of type `W`, and what is
-- read of a body once the context of its request has been canceled, and what that context says when
-- a read of a stream has failed.
pub record Http (W : Type 0) : Type 0 where
  pub parse_error : Text → GoError
  pub exchange : Outgoing → W → W × Answer
  pub canceled : Source → Source
  pub context_error : GoError

-- How the client was made: `ClientConfig`'s endpoint and HTTP client, and the fields of
-- `duh.Client` that it leaves at 0.
pub record Demo (W : Type 0) : Type 0 where
  pub endpoint : Text
  pub http : Http W
  pub unmarshal_reply : Encoding → Bytes → Result Reply

-- `ClientConfig`, where a client of nil is none.
pub record ClientConfig (W : Type 0) : Type 0 where
  pub endpoint : Text
  pub client : Option (Http W)

-- `NewClient`; `transport` is the client with `http.DefaultTransport`.
unfoldable pub new_client :
    {W : Type 0} → Http W → (Encoding → Bytes → Result Reply) → ClientConfig W → Demo W
new_client transport unmarshal_reply conf = record {
  endpoint = conf.endpoint;
  http = elim conf.client [ none ↦ transport | some client ↦ client ];
  unmarshal_reply = unmarshal_reply;
}

-- What errors name of a request.
abbrev pub named : Outgoing → Request
named o = record { method = o.method; url = o.url }

abbrev pub typed : Text → Details
typed content_type = insert (str "Content-Type") content_type []

module _ {W : Type 0} (c : Demo W) ⦃go : Go⦄ where
  abbrev pub url_of : Text → Text
  url_of path = c.endpoint ++ (str "/" ++ path)

  -- A request that has been made is sent; `finish` is what the method of `duh.Client` makes of the
  -- answer.
  abbrev pub exchanged : {A : Type 0} → (Request → Answer → A) → Outgoing → W × Answer → W × A
  exchanged finish o (w, a) = (w, finish (named o) a)

  abbrev pub post :
      {A : Type 0} → Text → Details → Bytes → (GoError → A) → (Request → Answer → A) → W → W × A
  post path header body refuse finish w =
      let o : Outgoing = record {
        method = str "POST";
        url = url_of path;
        header = header;
        body = body;
      } in
      if is_nil (c.http.parse_error o.url)
      then exchanged finish o (c.http.exchange o w)
      else (w, refuse (new_client_error [] (c.http.parse_error o.url) []))

  -- A request whose payload was encoded, or not.
  abbrev pub post_payload :
      {A : Type 0}
      → Text
      → Details
      → Result Bytes
      → (GoError → A)
      → (Request → Answer → A)
      → W
      → W × A
  post_payload path header (ok payload) refuse finish w = post path header payload refuse finish w
  post_payload path header (err e) refuse finish w =
      (w, refuse (new_client_error (str "while marshaling request payload: %w") e []))

  -- `SayHello`; `marshal` is the encoder of the request here and below.
  unfoldable pub say_hello :
      {R M : Type 0} → (R → Result Bytes) → (Encoding → Bytes → Result M) → R → W → W × Result M
  say_hello marshal unmarshal req =
      post_payload (str "v1/say.hello") (typed content_type_json) (marshal req) err
        (do_call c.unmarshal_reply unmarshal)

  -- `RenderPixel`
  unfoldable pub render_pixel :
      {R M : Type 0} → (R → Result Bytes) → (Encoding → Bytes → Result M) → R → W → W × Result M
  render_pixel marshal unmarshal req =
      post_payload (str "v1/render.pixel") (typed content_type_proto_buf) (marshal req) err
        (do_call c.unmarshal_reply unmarshal)

  -- `ListEvents`
  unfoldable pub list_events :
      {R : Type 0} → (R → Result Bytes) → R → W → W × Result (StreamReader × Encoding)
  list_events marshal req =
      post_payload (str "v1/events.list")
        (insert (str "Accept") content_stream_json (typed content_type_json)) (marshal req) err
        (do_stream c.unmarshal_reply c.http.canceled c.http.context_error (ℤ.pos 0) (ℤ.pos 0))

  -- `DownloadBytes`
  unfoldable pub download_bytes : W → W × Result Source
  download_bytes =
      post (str "v1/bytes.download") (insert (str "Accept") content_octet_stream []) [] err
        (do_bytes c.unmarshal_reply)

  -- `UploadContent`: the Reply that it gets is dropped, but for an error.
  unfoldable pub upload_content : Text → Text → Bytes → W → W × Result Reply
  upload_content path content_type body =
      post (str "v1/content.upload") (insert (str "X-RPC-Path") path (typed content_type)) body err
        (do_call c.unmarshal_reply c.unmarshal_reply)

  -- `DownloadContent`, whose request has the path alone: what is written into the buffer, and the
  -- headers or an error.
  unfoldable pub download_content : (Text → Result Bytes) → Text → W → W × (Bytes × Result Details)
  download_content marshal path =
      post_payload (str "v1/content.download") (typed content_type_json) (marshal path)
        (λ e. ([], err e)) (do_content c.unmarshal_reply)
