-- ===== src/Streaming/Carried.antt =====
-- What the frames of a stream carry from its messages to its end.
use mathlib.Core.Path.{subst}
use duh_go.Prelude.{ℕ, ◌≡◌, sym, ap, ◌∙◌, false}
use duh_go.Prelude.{List, [], ◌∷◌, ◌++◌, none, if◌then◌else◌, length, ◌+◌}
use mathlib.Core.List.{append_assoc}
use duh_go.Errors.{nil}
use duh_go.Frames.{Bytes, Result, ok, Sink, write, flush, write_frame, fits}
use duh_go.Frames.{flag_data, flag_heartbeat}
use duh_go.Frames.Laws.{encode}
use duh_go.Frames.Writes.{write_frame-write}
use duh_go.Streaming.Wire.{Frame}
use duh_go.Streaming.Writer.{StreamWriter, settle, put_frame, beat}
use duh_go.Streaming.Calls.{beat_open}
use duh_go.Streaming.Invariant.{Holds, write_frame-Holds, flush-Holds}

-- The frames of a complete stream: a data frame for each message in order, any heartbeats between
-- them, and the frames of its end.
pub data Carries {M : Type 0} (marshal : M → Result Bytes) (end_frames : List Frame)
    : List M → List Frame → Type 0 where
  heartbeat :
      {msgs : List M} {fs : List Frame}
      → Carries marshal end_frames msgs fs
      → Carries marshal end_frames msgs ((flag_heartbeat, []) ∷ fs)
  message :
      {msg : M} {payload : Bytes} {msgs : List M} {fs : List Frame}
      → marshal msg ≡ ok payload
      → Carries marshal end_frames msgs fs
      → Carries marshal end_frames (msg ∷ msgs) ((flag_data, payload) ∷ fs)
  last : Carries marshal end_frames [] end_frames

-- A frame written on a sink without a limit: no error, and the frame stands at the end.
pub put_frame-none :
    (fs : List Frame) (flag : ℕ) (payload : Bytes) (sw : StreamWriter)
    → Holds none fs sw.sink
    → (w : Sink) × (put_frame flag payload sw ≡ (record sw { sink = w }, nil))
      × Holds none (fs ++ ((flag, payload) ∷ [])) w
unfolding put_frame settle write
put_frame-none fs flag payload sw h =
    let w = (write_frame flag payload sw.sink).0 in
    (
      flush w,
      ap (settle sw) exact,
      flush-Holds none _ w (write_frame-Holds none fs sw.sink flag payload h),
    )
  where
    exact : write_frame flag payload sw.sink ≡ ((write_frame flag payload sw.sink).0, nil)
    exact =
        let none_left : (write_frame flag payload sw.sink).1 ≡ nil =
          ap (λ r. r.1) (write_frame-write flag payload sw.sink h.faulty)
          ∙ ap
              (λ r.
                if fits r (length sw.sink.written + length (encode flag payload))
                then nil
                else sw.sink.fault)
              h.same_room in
        λ i. ((write_frame flag payload sw.sink).0, none_left i)

-- A tick of an open writer adds a heartbeat frame, on such a sink.
pub ticked {ℓ} :
    (P : StreamWriter → Type ℓ) (fs : List Frame) (sw : StreamWriter)
    → sw.closed ≡ false
    → Holds none fs sw.sink
    → ((w : Sink) → Holds none (fs ++ ((flag_heartbeat, []) ∷ [])) w → P (record sw { sink = w }))
    → P (beat sw)
ticked P fs sw c holds k =
    subst P (sym (beat_open sw c))
      (k _ (flush-Holds none _ _ (write_frame-Holds none fs sw.sink flag_heartbeat [] holds)))

abbrev pub IsMarshalled : {M : Type 0} → (M → Result Bytes) → M → Type 0
IsMarshalled marshal msg = (payload : Bytes) × (marshal msg ≡ ok payload)

-- The messages `rest` are still to be sent: with frames behind them that carry `rest`, the frames
-- `fs` carry all of `msgs`.
abbrev pub Sofar :
    {M : Type 0} → (M → Result Bytes) → List Frame → List M → List M → List Frame → Type 0
Sofar marshal end_frames msgs rest fs =
    (gs : List Frame)
    → Carries marshal end_frames rest gs
    → Carries marshal end_frames msgs (fs ++ gs)

module _ {M : Type 0} (marshal : M → Result Bytes) (end_frames : List Frame) (msgs : List M) where
  pub Sofar-message :
      (msg : M) (rest : List M) (payload : Bytes) (fs : List Frame)
      → marshal msg ≡ ok payload
      → Sofar marshal end_frames msgs (msg ∷ rest) fs
      → Sofar marshal end_frames msgs rest (fs ++ ((flag_data, payload) ∷ []))
  Sofar-message msg rest payload fs e far gs c =
      rw append_assoc (far ((flag_data, payload) ∷ gs) (message e c))

  pub Sofar-heartbeat :
      (rest : List M) (fs : List Frame)
      → Sofar marshal end_frames msgs rest fs
      → Sofar marshal end_frames msgs rest (fs ++ ((flag_heartbeat, []) ∷ []))
  Sofar-heartbeat rest fs far gs c = rw append_assoc (far ((flag_heartbeat, []) ∷ gs) (heartbeat c))
