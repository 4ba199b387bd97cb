-- ===== src/Demo/Leak.antt =====
-- A request to the demo that makes its handler panic, and what goes on behind it.
use duh_go.Prelude.{
  ℕ, ◌*◌, ◌≤◌, ◌≡◌, refl, true, false, List, [], ◌∷◌, length, none, some, str, negsuc,
}
use duh_go.Errors.{Reply, Go}
use duh_go.Frames.{Bytes, Result, ok, Sink}
use duh_go.Media.{json, content_stream_json}
use duh_go.Service.StreamStart.{stream_headers}
use duh_go.Streaming.Server.{
  Handler, System, Actor, handler, run, step, advance, start, start_configured, heartbeat_interval,
}
use duh_go.Streaming.Panic.{IsLost, run-panicked}
use duh_go.Demo.Store.{Store, Event, list_events}
use duh_go.Demo.Router.{streaming, Codecs, megabyte, serve_http}
use duh_go.Demo.Link.{Link}
use duh_go.Demo.Served.{IsFaithful}
use duh_go.Demo.Events.{events_header, events_header_type, events_header_accept, serve_http-events}

module _ {F : Type 0} (codecs : Codecs F) (link : Link) ⦃go : Go⦄ (faithful : IsFaithful link)
    (roomy : (n : ℕ) → 1 ≤ codecs.free n) (marshal : Event → Result Bytes)
    (marshal_reply : Reply → Result Bytes) where
  -- For a request of the client's `ListEvents` with a negative count the handler opens a stream, with
  -- the heartbeats of the default interval, and panics. Whatever steps follow, nobody tells the
  -- heartbeat goroutine to stop, the writer stays open, and the goroutine goes on.
  pub serve_http-run :
      (p : Bytes) (n : ℕ) (s : Store) (schedule : List Actor)
      → length p ≤ 5 * megabyte
      → codecs.events_request json p ≡ ok (negsuc n)
      → link.fresh.can_flush ≡ true
      → let w = stream_headers content_stream_json link.fresh in
        let sys : System Event =
          run marshal marshal_reply schedule (
            run marshal marshal_reply
              (handler ∷ [])
              (start_configured none w.sink Handler.panic)) in
        (serve_http codecs
            (record {
              method = str "POST";
              path = str "/v1/events.list";
              header = events_header;
              body = link.carry p;
            })
            s
            link.fresh
          ≡ some (s, streaming json w Handler.panic))
        × IsLost sys
        × (sys.sw.closed ≡ false)
        × (sys.sw.beating ≡ true)
  unfolding list_events start_configured heartbeat_interval
  serve_http-run p n s schedule l d flush =
      let w = stream_headers content_stream_json link.fresh in
      let (lost, (open_writer, goes_on)) =
        run-panicked marshal marshal_reply w.sink Handler.panic (handler ∷ []) schedule
          (panics w.sink) in
      (
        serve_http-events codecs link faithful roomy events_header p (negsuc n) s l
            events_header_type events_header_accept d flush,
        lost,
        open_writer,
        goes_on,
      )
    where
      panics :
          (w : Sink)
          → IsLost (run marshal marshal_reply (handler ∷ []) (start true w Handler.panic))
      panics w = unfold run step advance start in record { phase = refl; stopping = refl }
