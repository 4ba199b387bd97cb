-- ===== src/Demo/Events.antt =====
-- The events of the demo, from its handler to its client.
use duh_go.Prelude.{
  ℕ, zero, suc, ◌+◌, ◌*◌, ◌≤◌, ◌≡◌, refl, sym, ap, ◌∙◌, Bool, true, List, [], length, none, some,
  Text, str, text_eq, text_eq_refl, ℤ, pos, All,
}
use mathlib.Core.List.{map}
use mathlib.Core.Path.{subst}
use duh_go.Errors.{Details, index, insert, Reply, sentinel, eof, Go}
use duh_go.Errors.Maps.{if_true, index-insert_same, index-insert_other}
use duh_go.Frames.{Bytes, Result, ok}
use duh_go.Media.{
  Encoding, json, content_type_json, content_stream_json, normalize_media_type, trim_suffix, is_any,
  to_lower, lower, trim_space, trim_left, trim_right, drop_space, is_space,
}
use duh_go.Service.{Message, ResponseWriter, set_service_headers}
use duh_go.Service.StreamStart.{opened, open_stream, stream_headers}
use duh_go.Client.{
  Request, Response, answered, do_stream, stream_of, stream_encoding, new_stream_reader,
}
use duh_go.Client.Agrees.{Agreed, open_stream-Agreed}
use duh_go.Streaming.Reader.{StreamReader}
use duh_go.Streaming.Server.{finished, Actor, run, start, emit}
use duh_go.Streaming.Reach.{IsFresh}
use duh_go.Streaming.Carried.{IsMarshalled}
use duh_go.Streaming.Receive.{recv_all}
use duh_go.Streaming.Delivery.{IsCodec}
use duh_go.Streaming.EndToEnd.{delivery}
use duh_go.Demo.Store.{Store, Event, events_from, list_events}
use duh_go.Demo.Router.{
  Incoming, streaming, Codecs, megabyte, event_program, list_program, stream_events, open_events,
  handle_list_events, serve_http,
}
use duh_go.Demo.Client.{typed}
use duh_go.Demo.Link.{Link}
use duh_go.Demo.Served.{IsFaithful, read_request-carry}

-- The headers of the client's `ListEvents`.
abbrev pub events_header : Details
events_header = insert (str "Accept") content_stream_json (typed content_type_json)

pub events_header_type : index (str "Content-Type") events_header ≡ content_type_json
unfolding text_eq
events_header_type =
    index-insert_other (str "Accept") (str "Content-Type") content_stream_json
      (typed content_type_json) refl
    ∙ index-insert_same (str "Content-Type") content_type_json []

pub events_header_accept : index (str "Accept") events_header ≡ content_stream_json
events_header_accept =
    index-insert_same (str "Accept") content_stream_json (typed content_type_json)

-- The response to the stream, with all that `HandleStream` has written.
abbrev pub stream_response : Text → ResponseWriter → Bytes → Response
stream_response status w written = record {
  status_code = 200;
  status = status;
  header = w.header;
  body = record { bytes = written; ending = sentinel eof };
}

-- The media type of a stream in JSON is known as it is.
stream_known : ⦃go : Go⦄ → normalize_media_type content_stream_json ≡ content_stream_json
unfolding normalize_media_type trim_suffix is_any to_lower lower trim_space trim_left trim_right
    drop_space is_space text_eq
stream_known = refl

length-events_from : (i n : ℕ) → length (events_from i n) ≡ n
unfolding events_from
length-events_from i zero = refl
length-events_from i (suc n) = ap suc (length-events_from (i + 1) n)

open_stream-json :
    {M : Type 0} (marshal : Encoding → Message M → Result Bytes) ⦃go : Go⦄ (w : ResponseWriter)
    → w.can_flush ≡ true
    → open_stream marshal content_stream_json w ≡ opened json (stream_headers content_stream_json w)
unfolding open_stream
open_stream-json marshal w f =
    if_true _ w.can_flush f
    ∙ if_true _ (text_eq content_stream_json (normalize_media_type content_stream_json))
        (ap (text_eq content_stream_json) stream_known ∙ text_eq_refl content_stream_json)

module _ {F : Type 0} (codecs : Codecs F) (link : Link) ⦃go : Go⦄ (faithful : IsFaithful link)
    (roomy : (n : ℕ) → 1 ≤ codecs.free n) where
  -- A request for events in the handler.
  pub serve_http-events :
      (header : Details) (p : Bytes) (count : ℤ) (s : Store)
      → length p ≤ 5 * megabyte
      → index (str "Content-Type") header ≡ content_type_json
      → index (str "Accept") header ≡ content_stream_json
      → codecs.events_request json p ≡ ok count
      → link.fresh.can_flush ≡ true
      → serve_http codecs
          (record {
            method = str "POST";
            path = str "/v1/events.list";
            header = header;
            body = link.carry p;
          })
          s
          link.fresh
        ≡ some (
          s,
          streaming json
              (stream_headers content_stream_json link.fresh)
              (event_program codecs (list_events count)),
        )
  unfolding serve_http handle_list_events text_eq
  serve_http-events header p count s l t a d f =
      let r : Incoming = record {
        method = str "POST";
        path = str "/v1/events.list";
        header = header;
        body = link.carry p;
      } in
      let w = stream_headers content_stream_json link.fresh in
      ap (λ accept. open_events codecs r s (open_stream codecs.marshal accept link.fresh)) a
      ∙ (ap (open_events codecs r s) (open_stream-json codecs.marshal link.fresh f)
          ∙ ap (λ req. stream_events codecs json s w (list_program codecs req))
              (read_request-carry codecs link faithful roomy codecs.events_request header p count t
                l d))

  module _ (marshal : Event → Result Bytes) (unmarshal : Bytes → Result Event)
      (marshal_reply : Reply → Result Bytes)
      (unmarshal_reply : Encoding → Bytes → Result Reply) where
    -- The reader that `DoStream` makes gets the events that the handler sends.
    receives :
        (events : List Event) (heartbeats : Bool) (schedule : List Actor) (w : ResponseWriter)
        (req : Request)
        → stream_encoding unmarshal_reply
            (normalize_media_type (index (str "Content-Type") w.header))
          ≡ some json
        → All (IsCodec marshal unmarshal (pos 4000000)) events
        → All (IsMarshalled marshal) events
        → IsFresh w.sink
        → w.sink.room ≡ none
        → let sys =
            run marshal marshal_reply schedule (start heartbeats w.sink (emit events none)) in
          sys.phase ≡ finished
          → (sr : StreamReader) × (do_stream unmarshal_reply link.canceled link.context_error
                (pos 0)
                (pos 0)
                req
                (answered (stream_response link.status w sys.sw.sink.written))
              ≡ ok (sr, json))
            × (recv_all unmarshal (unmarshal_reply json) (length events + 2) sr
                ≡ some (map some events, sentinel eof))
    unfolding do_stream
    receives events heartbeats schedule w req known codec ms fresh room f =
        let sys = run marshal marshal_reply schedule (start heartbeats w.sink (emit events none)) in
        let resp = stream_response link.status w sys.sw.sink.written in
        (
          new_stream_reader unmarshal_reply link.context_error (pos 0) (pos 0) resp,
          ap (stream_of unmarshal_reply link.canceled link.context_error (pos 0) (pos 0) req resp)
              known,
          delivery marshal unmarshal marshal_reply (unmarshal_reply json) events none heartbeats
              w.sink schedule
              (new_stream_reader unmarshal_reply link.context_error (pos 0) (pos 0) resp) codec
              (λ msg h. let no : ⊥ = cc in absurd no) (λ msg h. let no : ⊥ = cc in absurd no) ms
              ([], refl) fresh room f refl refl refl,
        )

    -- A request of the client's `ListEvents` arrives as it was sent, takes at most five megabytes and
    -- decodes; the response is a new one, on a connection that does not break and that can be flushed.
    -- The handler opens a stream and sends the events that were asked for, numbered from 0. Once
    -- `HandleStream` has returned, under any schedule of its heartbeat goroutine, the reader that the
    -- client's `DoStream` makes gets these events in order, and then EOF, if each of them has an
    -- encoding that decodes to it and fits in a frame and in the client's limit.
    pub serve_http-list_events :
        (p : Bytes) (n : ℕ) (s : Store) (heartbeats : Bool) (schedule : List Actor) (req : Request)
        → length p ≤ 5 * megabyte
        → codecs.events_request json p ≡ ok (pos n)
        → link.fresh.can_flush ≡ true
        → IsFresh link.fresh.sink
        → All (IsCodec marshal unmarshal (pos 4000000)) (events_from 0 n)
        → All (IsMarshalled marshal) (events_from 0 n)
        → let w = stream_headers content_stream_json link.fresh in
          let program = emit (events_from 0 n) none in
          let sys = run marshal marshal_reply schedule (start heartbeats w.sink program) in
          sys.phase ≡ finished
          → (serve_http codecs
                (record {
                  method = str "POST";
                  path = str "/v1/events.list";
                  header = events_header;
                  body = link.carry p;
                })
                s
                link.fresh
              ≡ some (s, streaming json w program))
            × ((sr : StreamReader) × (do_stream unmarshal_reply link.canceled link.context_error
                    (pos 0)
                    (pos 0)
                    req
                    (answered (stream_response link.status w sys.sw.sink.written))
                  ≡ ok (sr, json))
                × (recv_all unmarshal (unmarshal_reply json) (n + 2) sr
                    ≡ some (map some (events_from 0 n), sentinel eof)))
    unfolding set_service_headers text_eq list_events
    serve_http-list_events p n s heartbeats schedule req l d flush fresh codec ms f =
        let w = stream_headers content_stream_json link.fresh in
        (
          serve_http-events events_header p (pos n) s l events_header_type events_header_accept d
              flush,
          (let (sr, made, got) =
                receives (events_from 0 n) heartbeats schedule w req
                  (subst (Agreed unmarshal_reply) (open_stream-json codecs.marshal link.fresh flush)
                    (open_stream-Agreed unmarshal_reply codecs.marshal content_stream_json
                      link.fresh))
                  codec ms fresh faithful.unsent.unbroken f in
              (
                sr,
                made,
                ap (λ k. recv_all unmarshal (unmarshal_reply json) (k + 2) sr)
                      (sym (length-events_from 0 n))
                    ∙ got,
              )),
        )
