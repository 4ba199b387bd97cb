-- ===== src/Demo/Router.antt =====
-- `Handler` of demo/handler.go: the routes and what they do with the service.
use duh_go.Prelude.{
  ℕ, List, [], ◌∷◌, ◌++◌, ◌*◌, Option, none, some, Text, str, text_eq, itoa, length, if◌then◌else◌,
  ℤ, pos,
}
use mathlib.Core.Bool.{not}
use duh_go.Errors.{
  Details, index, Reply, GoError, nil, Go, new_service_error, code_ok, code_bad_request,
  code_not_implemented,
}
use duh_go.Frames.{Bytes, Result, ok, err}
use duh_go.Media.{Encoding, content_octet_stream}
use duh_go.Body.{Body}
use duh_go.Service.{
  Message, message, reply_message, ResponseWriter, reply, reply_with_code, reply_error,
  reply_content_error, write_content,
}
use duh_go.Service.Requests.{read_request, read_content}
use duh_go.Service.StreamStart.{Opening, refused, opened, open_stream}
use duh_go.Streaming.Server
use duh_go.Streaming.Server.{emit}
use duh_go.Demo.Store.{
  Store, Entry, store_content, get_content, say_hello, list_events, Event, FloatOps, PixelRequest,
  render_pixel,
}

-- An `http.Request`, as the handler sees it.
pub record Incoming : Type 0 where
  pub method : Text
  pub path : Text
  pub header : Details
  pub body : Body

-- The messages that the demo replies with.
pub data Answers : Type 0 where
  hello : Text → Answers
  gray : ℤ → Answers

-- How a handler goes on: with a reply, or as a stream's handler.
pub data Served : Type 0 where
  replied : ResponseWriter → Served
  streaming : Encoding → ResponseWriter → Server.Handler Event → Served

abbrev pub megabyte : ℕ
megabyte = 1000000

-- What the demo has of the generated code, of `cases.Title`, and of the standard library: `free` is
-- the space that a buffer has for a read.
pub record Codecs (F : Type 0) : Type 0 where
  pub marshal : Encoding → Message Answers → Result Bytes
  pub hello_request : Encoding → Bytes → Result Text
  pub pixel_request : Encoding → Bytes → Result (PixelRequest F)
  pub events_request : Encoding → Bytes → Result ℤ
  pub download_request : Encoding → Bytes → Result Text
  pub title : Text → Text
  pub float : FloatOps F
  pub free : ℕ → ℕ

module _ {F : Type 0} (codecs : Codecs F) ⦃go : Go⦄ where
  abbrev pub accept_of : Incoming → Text
  accept_of r = index (str "Accept") r.header

  -- A reply, with the store as it is.
  abbrev pub kept_store : Store → Option ResponseWriter → Option (Store × Served)
  kept_store s none = none
  kept_store s (some w) = some (s, replied w)

  abbrev pub answer_error : Incoming → GoError → Store → ResponseWriter → Option (Store × Served)
  answer_error r e s w = kept_store s (reply_error codecs.marshal (accept_of r) e w)

  abbrev pub answer_content_error :
      Incoming → GoError → Store → ResponseWriter → Option (Store × Served)
  answer_content_error r e s w = kept_store s (reply_content_error codecs.marshal (accept_of r) e w)

  abbrev pub answer : Incoming → Result Answers → Store → ResponseWriter → Option (Store × Served)
  answer r (ok msg) s w = kept_store s (reply codecs.marshal (accept_of r) code_ok (message msg) w)
  answer r (err e) s w = answer_error r e s w

  -- What follows a read of the request: `handle`, or its error as the reply.
  abbrev pub with_read :
      {M : Type 0}
      → (M → Store → ResponseWriter → Option (Store × Served))
      → Incoming
      → Option (Result M)
      → Store
      → ResponseWriter
      → Option (Store × Served)
  with_read handle r none s w = none
  with_read handle r (some (ok req)) s w = handle req s w
  with_read handle r (some (err e)) s w = answer_error r e s w

  -- A request that is read with `ReadRequest`, within five megabytes.
  abbrev pub with_request :
      {M : Type 0}
      → (Encoding → Bytes → Result M)
      → (M → Store → ResponseWriter → Option (Store × Served))
      → Incoming
      → Store
      → ResponseWriter
      → Option (Store × Served)
  with_request unmarshal handle r s w =
      with_read handle r (read_request unmarshal codecs.free r.header r.body (pos (5 * megabyte))) s
        w

  -- `handleSayHello`
  unfoldable pub handle_say_hello : Incoming → Store → ResponseWriter → Option (Store × Served)
  handle_say_hello r =
      with_request codecs.hello_request
        (λ name s w. answer r (hello_answer (say_hello codecs.title name)) s w) r
    where
      hello_answer : Result Text → Result Answers
      hello_answer (ok t) = ok (hello t)
      hello_answer (err e) = err e

  -- `handleRenderPixel`
  unfoldable pub handle_render_pixel : Incoming → Store → ResponseWriter → Option (Store × Served)
  handle_render_pixel r =
      with_request codecs.pixel_request
        (λ req s w. answer r (ok (gray (render_pixel codecs.float req))) s w) r

  -- The handler `listEvents` of the stream, by the request that it reads.
  abbrev pub event_program : Option (List Event) → Server.Handler Event
  event_program none = Server.Handler.panic
  event_program (some events) = emit events none

  abbrev pub list_program : Option (Result ℤ) → Option (Server.Handler Event)
  list_program none = none
  list_program (some (err e)) = some (Server.Handler.return e)
  list_program (some (ok count)) = some (event_program (list_events count))

  abbrev pub stream_events :
      Encoding → Store → ResponseWriter → Option (Server.Handler Event) → Option (Store × Served)
  stream_events enc s w none = none
  stream_events enc s w (some program) = some (s, streaming enc w program)

  abbrev pub open_events : Incoming → Store → Opening → Option (Store × Served)
  open_events r s (refused o) = kept_store s o
  open_events r s (opened enc w) = stream_events enc s w (
      list_program
        (read_request codecs.events_request codecs.free r.header r.body (pos (5 * megabyte))))

  unfoldable pub handle_list_events : Incoming → Store → ResponseWriter → Option (Store × Served)
  handle_list_events r s w = open_events r s (open_stream codecs.marshal (accept_of r) w)

  -- `handleDownloadBytes`
  unfoldable pub handle_download_bytes : Incoming → Store → ResponseWriter → Option (Store × Served)
  handle_download_bytes r s w =
      some (s, replied (write_content content_octet_stream (str "hello, bytes") w))

  -- The end of `handleContentUpload`.
  abbrev pub stored_reply : Text → Bytes → Reply
  stored_reply path body = record {
    code = itoa code_ok;
    message = str "content stored";
    details = (str "path", path) ∷ (str "size", itoa (length body)) ∷ [];
  }

  abbrev pub upload_to :
      Text → Text → Bytes → Incoming → Store → ResponseWriter → Option (Store × Served)
  upload_to path content_type body r s w =
      if text_eq path []
      then answer_content_error r
          (new_service_error code_bad_request (str "X-RPC-Path header is required") nil []) s w
      else kept_store (store_content path content_type body s)
          (reply codecs.marshal (accept_of r) code_ok (reply_message (stored_reply path body)) w)

  -- `handleContentUpload`
  unfoldable pub handle_content_upload : Incoming → Store → ResponseWriter → Option (Store × Served)
  handle_content_upload r =
      with_read
        (λ (b : Bytes × Text) s w. upload_to (index (str "X-RPC-Path") r.header) b.1 b.0 r s w) r
        (read_content codecs.free r.header r.body (pos (10 * megabyte)))

  abbrev pub download : Incoming → Result Entry → Store → ResponseWriter → Option (Store × Served)
  download r (ok entry) s w = some (s, replied (write_content entry.content_type entry.body w))
  download r (err e) s w = answer_content_error r e s w

  -- `handleContentDownload`
  unfoldable pub handle_content_download :
      Incoming → Store → ResponseWriter → Option (Store × Served)
  handle_content_download r =
      with_request codecs.download_request (λ path s w. download r (get_content path s) s w) r

  -- `ServeHTTP`
  unfoldable pub serve_http : Incoming → Store → ResponseWriter → Option (Store × Served)
  serve_http r s w =
      if not (text_eq r.method (str "POST"))
      then kept_store s (
          reply_with_code codecs.marshal (accept_of r) code_bad_request []
            (str "http method '" ++ (r.method ++ str "' not allowed; only POST")) w)
      else if text_eq r.path (str "/v1/say.hello")
      then handle_say_hello r s w
      else if text_eq r.path (str "/v1/render.pixel")
      then handle_render_pixel r s w
      else if text_eq r.path (str "/v1/events.list")
      then handle_list_events r s w
      else if text_eq r.path (str "/v1/bytes.download")
      then handle_download_bytes r s w
      else if text_eq r.path (str "/v1/content.upload")
      then handle_content_upload r s w
      else if text_eq r.path (str "/v1/content.download")
      then handle_content_download r s w
      else kept_store s (
          reply_with_code codecs.marshal (accept_of r) code_not_implemented []
            (str "no such method; " ++ r.path) w)
