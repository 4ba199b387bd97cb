-- ===== src/Streaming/EndToEnd.antt =====
-- A stream from the server's handler to the client's loop.
use duh_go.Prelude.{◌+◌, ◌≡◌, ap, ◌∙◌, arith, Bool, false, All}
use duh_go.Prelude.{List, Option, none, some, length}
use duh_go.Errors.{sentinel, eof, Go, Reply}
use duh_go.Frames.{Bytes, Result, ok, Sink}
use duh_go.Streaming.Writer.{marshal_final}
use duh_go.Streaming.Reader.{StreamReader}
use duh_go.Streaming.Server.{finished, Actor, run, start, emit}
use duh_go.Streaming.Reach.{IsFresh}
use duh_go.Streaming.Carried.{IsMarshalled}
use duh_go.Streaming.Emitted.{emit-Carries}
use duh_go.Streaming.Receive.{recv_all}
use duh_go.Streaming.Delivery.{IsCodec, IsFinalCodec, HasBytes, received, collect, at}

-- A handler sends `msgs` and closes with `final`, on a connection that does not break; the schedule
-- of the heartbeat goroutine is any, and `HandleStream` has returned. A client that has read nothing
-- yet receives exactly `msgs` and the final message, if there is one, in order, and then EOF. The
-- messages must have encodings that the client decodes to them and that fit in a frame and in the
-- client's limit, and a final message one that is not empty.
pub delivery :
    {M : Type 0} (marshal : M → Result Bytes) (unmarshal : Bytes → Result M)
    (marshal_reply : Reply → Result Bytes) (unmarshal_reply : Bytes → Result Reply) ⦃go : Go⦄
    (msgs : List M) (final : Option M) (heartbeats : Bool) (w : Sink) (schedule : List Actor)
    (sr : StreamReader)
    → All (IsCodec marshal unmarshal sr.max_payload) msgs
    → IsFinalCodec marshal unmarshal sr.max_payload final
    → HasBytes marshal final
    → All (IsMarshalled marshal) msgs
    → (payload : Bytes) × (marshal_final marshal final ≡ ok payload)
    → IsFresh w
    → w.room ≡ none
    → let s = run marshal marshal_reply schedule (start heartbeats w (emit msgs final)) in
      s.phase ≡ finished
      → sr.source.bytes ≡ s.sw.sink.written
      → sr.done ≡ false
      → sr.has_pending ≡ false
      → recv_all unmarshal unmarshal_reply (length msgs + 2) sr
        ≡ some (received msgs final, sentinel eof)
delivery marshal unmarshal marshal_reply unmarshal_reply msgs final heartbeats w schedule sr codecs
      codec has ms mf fresh unlimited f wire d p =
    let (payload, e) = mf in
    let (fs, bytes, c) =
      emit-Carries marshal marshal_reply msgs final payload e heartbeats w schedule fresh unlimited
        ms f in
    ap (λ b. recv_all unmarshal unmarshal_reply (length msgs + 2) (at sr b)) (wire ∙ bytes)
    ∙ collect marshal unmarshal unmarshal_reply sr final payload e msgs (length msgs + 2) fs codecs
        codec c has d p (omega arith)
