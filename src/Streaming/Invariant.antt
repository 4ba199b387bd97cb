-- ===== src/Streaming/Invariant.antt =====
-- What holds of a stream at every moment, whatever the handler does and however the heartbeat
-- goroutine is scheduled against it.
use duh_go.Prelude.{ℕ, ◌≡◌, refl, sym, ap, ◌∙◌, inl, inr, Bool-cases}
use duh_go.Prelude.{List, [], ◌∷◌, ◌++◌, Option, length}
use mathlib.Core.List.{append-nil}
use duh_go.Errors.{GoError, is_nil, Go}
use duh_go.Frames.{Bytes, Result, ok, err, Sink, write, write_frame, clip, flush}
use duh_go.Frames.{flag_data, flag_final, flag_error, flag_heartbeat}
use duh_go.Frames.Laws.{encode}
use duh_go.Frames.Writes.{IsFaulty, write_frame-write}
use duh_go.Streaming.Wire.{Frame, encode_all, encode_all-concat, clip-clip}
use duh_go.Streaming.Writer.{
  StreamWriter, settle, put_frame, send_payload, close_payload, put_error,
}

-- The sink holds what it took of the frames written to it, in order.
pub record Holds (room : Option ℕ) (fs : List Frame) (w : Sink) : Type 0 where
  pub same_room : w.room ≡ room
  pub faulty : IsFaulty w
  pub bytes : w.written ≡ clip room 0 (encode_all fs)

-- A written frame is the next frame, whether or not the sink had room for it.
pub write_frame-Holds :
    (room : Option ℕ) (fs : List Frame) (w : Sink) (flag : ℕ) (payload : Bytes)
    → Holds room fs w
    → Holds room (fs ++ ((flag, payload) ∷ [])) (write_frame flag payload w).0
unfolding write
write_frame-Holds room fs w flag payload h =
    rw (write_frame-write flag payload w h.faulty) (record {
      same_room = h.same_room;
      faulty = h.faulty;
      bytes =
          ap (λ r. w.written ++ clip r (length w.written) (encode flag payload)) h.same_room
          ∙ ap (λ t. t ++ clip room (length t) (encode flag payload)) h.bytes
          ∙ clip-clip room (encode_all fs) (encode flag payload)
          ∙ ap (clip room 0) (sym (encode_all-concat fs flag payload));
    })

pub flush-Holds :
    (room : Option ℕ) (fs : List Frame) (w : Sink) → Holds room fs w → Holds room fs (flush w)
unfolding flush
flush-Holds room fs w h = record { same_room = h.same_room; faulty = h.faulty; bytes = h.bytes }

-- An operation writes nothing, or one frame with the flag.
pub data IsAtMostOne (flag : ℕ) : List Frame → Type 0 where
  nothing : IsAtMostOne flag []
  one : (payload : Bytes) → IsAtMostOne flag ((flag, payload) ∷ [])

-- What an operation did to a writer: the frames `gs` are new, and the rest is as it was.
pub record Writes (room : Option ℕ) (fs gs : List Frame) (sw sw' : StreamWriter) : Type 0 where
  pub holds : Holds room (fs ++ gs) sw'.sink
  pub closed : sw'.closed ≡ sw.closed
  pub beating : sw'.beating ≡ sw.beating
  pub stopping : sw'.stopping ≡ sw.stopping

-- The frames that an operation with this flag adds.
abbrev pub Effect : Option ℕ → List Frame → ℕ → StreamWriter → StreamWriter → Type 0
Effect room fs flag sw sw' = (gs : List Frame) × IsAtMostOne flag gs × Writes room fs gs sw sw'

unchanged :
    (room : Option ℕ) (fs : List Frame) (flag : ℕ) (sw : StreamWriter)
    → Holds room fs sw.sink
    → Effect room fs flag sw sw
unchanged room fs flag sw h = (
  [],
  nothing,
  record { holds = rw (append-nil fs) h; closed = refl; beating = refl; stopping = refl },
)

settle-Effect :
    (room : Option ℕ) (fs : List Frame) (flag : ℕ) (payload : Bytes) (sw : StreamWriter)
    (r : Sink × GoError)
    → Holds room (fs ++ ((flag, payload) ∷ [])) r.0
    → Effect room fs flag sw (settle sw r).0
unfolding settle
settle-Effect room fs flag payload sw (w, e) h = elim (Bool-cases (is_nil e)) [
  | inl fine ↦ rw fine (made (flush w) (flush-Holds room _ w h))
  | inr failed ↦ rw failed (made w h)
]
  where
    made :
        (v : Sink)
        → Holds room (fs ++ ((flag, payload) ∷ [])) v
        → Effect room fs flag sw (record sw { sink = v })
    made v k = (
      (flag, payload) ∷ [],
      one payload,
      record { holds = k; closed = refl; beating = refl; stopping = refl },
    )

pub put_frame-Effect :
    (room : Option ℕ) (fs : List Frame) (flag : ℕ) (payload : Bytes) (sw : StreamWriter)
    → Holds room fs sw.sink
    → Effect room fs flag sw (put_frame flag payload sw).0
unfolding put_frame
put_frame-Effect room fs flag payload sw h =
    settle-Effect room fs flag payload sw _ (write_frame-Holds room fs sw.sink flag payload h)

module _ (room : Option ℕ) (fs : List Frame) (sw : StreamWriter) (h : Holds room fs sw.sink)
    ⦃go : Go⦄ where
  pub send_payload-Effect : (r : Result Bytes) → Effect room fs flag_data sw (send_payload r sw).0
  unfolding send_payload
  send_payload-Effect (ok payload) = put_frame-Effect room fs flag_data payload sw h
  send_payload-Effect (err e) = unchanged room fs flag_data sw h

  pub close_payload-Effect :
      (r : Result Bytes) → Effect room fs flag_final sw (close_payload r sw).0
  unfolding close_payload
  close_payload-Effect (ok payload) = put_frame-Effect room fs flag_final payload sw h
  close_payload-Effect (err e) = unchanged room fs flag_final sw h

  pub put_error-Effect : (r : Result Bytes) → Effect room fs flag_error sw (put_error r sw)
  put_error-Effect (ok payload) = put_frame-Effect room fs flag_error payload sw h
  put_error-Effect (err e) = unchanged room fs flag_error sw h

pub heartbeat-Effect :
    (room : Option ℕ) (fs : List Frame) (sw : StreamWriter)
    → Holds room fs sw.sink
    → Effect room fs flag_heartbeat sw
        (record sw { sink = flush (write_frame flag_heartbeat [] sw.sink).0 })
heartbeat-Effect room fs sw h = (
  (flag_heartbeat, []) ∷ [],
  one [],
  record {
    holds = flush-Holds room _ _ (write_frame-Holds room fs sw.sink flag_heartbeat [] h);
    closed = refl;
    beating = refl;
    stopping = refl;
  },
)
