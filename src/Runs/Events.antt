-- ===== src/Runs/Events.antt =====
-- The events of the demo at a concrete request and schedule.
use duh_go.Prelude.{
  ℕ, ◌+◌, ◌≡◌, refl, sym, ap, ◌∙◌, arith, true, List, [], ◌∷◌, ◌++◌, none, some, Text, str, text_eq,
  text_eq_iff, itoa, decimal, pos, if◌then◌else◌, if_intro,
}
use mathlib.Core.List.{map}
use duh_go.Errors.{plain, sentinel, eof}
use duh_go.Frames.{
  Bytes, Result, ok, err, write, flush, write_payload, write_frame, header, put_uint32,
}
use duh_go.Streaming.Writer.{settle, put_frame, send_payload, close_payload, beat, finish}
use duh_go.Streaming.Writer
use duh_go.Streaming.Server.{stop, resume, advance, step}
use duh_go.Service.{set_service_headers}
use duh_go.Media.{json, content_stream_json}
use duh_go.Service.StreamStart.{stream_headers}
use duh_go.Client.{answered, do_stream}
use duh_go.Streaming.Reader.{StreamReader}
use duh_go.Streaming.Server.{Actor, handler, ticker, run, start, emit, finished, System}
use duh_go.Streaming.Receive.{recv_all}
use duh_go.Streaming.Delivery.{IsCodec}
use duh_go.Demo.Store.{Event, events_from}
use duh_go.Prelude.{negsuc, false}
use duh_go.Streaming.Server.{Handler, stopper, start_configured}
use duh_go.Streaming.Panic.{IsLost}
use duh_go.Demo.Leak.{serve_http-run}
use duh_go.Demo.Router.{Codecs, serve_http, streaming}
use duh_go.Demo.Events.{events_header, stream_response, serve_http-list_events}
use duh_go.Runs.Demo.{sample_codecs, sample_link, sample_link-IsFaithful}
use duh_go.Samples.{sample_go, reply_bytes, unmarshal_code, unsent}

-- An event that has the message of its number, as the byte of that number.
abbrev event_text : ℕ → Text
event_text n = str "event-" ++ itoa n

abbrev event_bytes : Event → Result Bytes
event_bytes ev =
    if text_eq ev.message (event_text ev.sequence)
    then ok (ev.sequence ∷ [])
    else err (plain (str "no event"))

abbrev bytes_event : Bytes → Result Event
bytes_event (n ∷ []) = ok (record { sequence = n; message = event_text n })
bytes_event _ = err (plain (str "not one byte"))

event_bytes_lem :
    (ev : Event) (payload : Bytes)
    → event_bytes ev ≡ ok payload
    → (payload ≡ ev.sequence ∷ []) × (ev.message ≡ event_text ev.sequence)
event_bytes_lem ev payload =
    if_intro
      (λ (r : Result Bytes).
        r ≡ ok payload → (payload ≡ ev.sequence ∷ []) × (ev.message ≡ event_text ev.sequence))
      (text_eq ev.message (event_text ev.sequence))
      (λ h e. (
        ap (λ r. elim r [ ok b ↦ b | err e ↦ [] ]) (sym e),
        (text_eq_iff ev.message (event_text ev.sequence)).0 h,
      ))
      (λ h e. let no : ⊥ = cc in absurd no)

event-IsCodec : (ev : Event) → IsCodec event_bytes bytes_event (pos 4000000) ev
event-IsCodec ev = record {
  decodes = λ payload e.
      let (p, m) = event_bytes_lem ev payload e in
      ap bytes_event p ∙ ap (λ m. ok (record { sequence = ev.sequence; message = m })) (sym m);
  small = λ payload e. rw (event_bytes_lem ev payload e).0 (omega arith);
  fits = λ payload e. rw (event_bytes_lem ev payload e).0 refl;
}

abbrev calls : List Actor
calls =
    handler ∷ ticker ∷ handler ∷ handler ∷ handler ∷ ticker ∷ stopper ∷ handler ∷ handler ∷ handler
    ∷ []

-- The system behind a request for three events.
abbrev three_sent : System Event
three_sent =
    run event_bytes reply_bytes calls
      (start true (stream_headers content_stream_json unsent).sink (emit (events_from 0 3) none))

three_sent_finished : three_sent.phase ≡ finished
unfolding run step advance resume stop start emit Writer.send Writer.close send_payload
    close_payload put_frame settle beat finish flush write_frame write write_payload header
    put_uint32 set_service_headers events_from itoa decimal text_eq
three_sent_finished = refl

serve_http-list_events_example :
    (serve_http sample_codecs
        (record {
          method = str "POST";
          path = str "/v1/events.list";
          header = events_header;
          body = sample_link.carry [];
        })
        []
        unsent
      ≡ some (
        [],
        streaming json (stream_headers content_stream_json unsent) (emit (events_from 0 3) none),
      ))
    × ((sr : StreamReader) × (do_stream unmarshal_code sample_link.canceled
            sample_link.context_error
            (pos 0)
            (pos 0)
            (record { method = str "POST"; url = str "/" })
            (answered (
              stream_response
                (str "200 OK")
                (stream_headers content_stream_json unsent)
                three_sent.sw.sink.written))
          ≡ ok (sr, json))
        × (recv_all bytes_event (unmarshal_code json) (3 + 2) sr
            ≡ some (map some (events_from 0 3), sentinel eof)))
unfolding itoa decimal events_from text_eq
serve_http-list_events_example =
    serve_http-list_events sample_codecs sample_link sample_link-IsFaithful (λ n. omega arith)
      event_bytes bytes_event reply_bytes unmarshal_code [] 3 [] true calls
      (record { method = str "POST"; url = str "/" }) (omega arith) refl refl
      (record { empty = refl; faulty = refl })
      (event-IsCodec _, (event-IsCodec _, (event-IsCodec _, tt)))
      ((_, refl), ((_, refl), ((_, refl), tt))) three_sent_finished

-- Codecs under which every request asks for -1 events.
abbrev negative_codecs : Codecs ℕ
negative_codecs = record sample_codecs { events_request = λ enc b. ok (negsuc 0) }

serve_http-run_example :
    let w = stream_headers content_stream_json unsent in
    let sys : System Event =
      run event_bytes reply_bytes
        (ticker ∷ stopper ∷ ticker ∷ [])
        (run event_bytes reply_bytes (handler ∷ []) (start_configured none w.sink Handler.panic)) in
    (serve_http negative_codecs
        (record {
          method = str "POST";
          path = str "/v1/events.list";
          header = events_header;
          body = sample_link.carry [];
        })
        []
        unsent
      ≡ some ([], streaming json w Handler.panic))
    × IsLost sys
    × (sys.sw.closed ≡ false)
    × (sys.sw.beating ≡ true)
serve_http-run_example =
    serve_http-run negative_codecs sample_link sample_link-IsFaithful (λ n. omega arith) event_bytes
      reply_bytes [] 0 [] (ticker ∷ stopper ∷ ticker ∷ []) (omega arith) refl refl
