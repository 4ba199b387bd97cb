-- ===== src/Streaming/Failing.antt =====
-- The server's side of a stream whose handler fails in the end.
use mathlib.Core.Path.{subst}
use duh_go.Prelude.{◌≡◌, refl, sym, ap, ◌∙◌, Bool, true, false, All}
use duh_go.Prelude.{List, [], ◌∷◌, none, if◌then◌else◌, ◌&&◌, if_intro}
use duh_go.Errors.{GoError, nil, is_nil, Go, Reply}
use duh_go.Frames.{Bytes, Result, ok, Sink, flag_data, flag_error}
use duh_go.Streaming.Wire.{Frame, encode_all}
use duh_go.Streaming.Writer
use duh_go.Streaming.Writer.{
  StreamWriter, send_payload, beat, finish, put_frame, put_error, build_error_reply,
}
use duh_go.Streaming.Server.{
  Handler, serving, returning, finished, System, Actor, handler, ticker, stopper, stop, resume,
  advance, step, run, start,
}
use duh_go.Streaming.Calls.{send_open, finish_error}
use duh_go.Streaming.Invariant.{Holds}
use duh_go.Streaming.Reach.{IsFresh}
use duh_go.Streaming.Carried.{
  Carries, last, Sofar, Sofar-message, Sofar-heartbeat, put_frame-none, ticked, IsMarshalled,
}

-- A handler that sends each message, returns on the first error, and then returns an error of its
-- own.
unfoldable pub emit_failing : {M : Type 0} → List M → GoError → Handler M
emit_failing [] failure = Handler.return failure
emit_failing (msg ∷ msgs) failure =
    Handler.send msg (λ e. if is_nil e then emit_failing msgs failure else Handler.return e)

module _ {M : Type 0} (marshal : M → Result Bytes) (marshal_reply : Reply → Result Bytes) ⦃go : Go⦄
    (msgs : List M) (failure : GoError) (error_payload : Bytes) (fails : is_nil failure ≡ false)
    (marshalled : marshal_reply (build_error_reply failure) ≡ ok error_payload) where
  -- The end of the stream.
  abbrev ends : List Frame
  ends = (flag_error, error_payload) ∷ []

  abbrev Left : List M → List Frame → Type 0
  Left = Sofar marshal ends msgs

  -- The stages of a stream that `emit_failing` serves, with the frames that were written.
  data Stage (fs : List Frame) (s : System M) : Type 0 where
    sending :
        (rest : List M)
        → s.phase ≡ serving (emit_failing rest failure)
        → s.sw.closed ≡ false
        → All (IsMarshalled marshal) rest
        → Left rest fs
        → Stage fs s
    joining : s.phase ≡ returning failure → s.sw.closed ≡ false → Left [] fs → Stage fs s
    over : s.phase ≡ finished → s.sw.beating ≡ false → Carries marshal ends msgs fs → Stage fs s

  -- The stage, and what the sink holds.
  abbrev Staged : System M → Type 0
  Staged s = (fs : List Frame) × Holds none fs s.sw.sink × Stage fs s

  sent :
      (msg : M) (rest : List M) (fs : List Frame) (payload : Bytes) (sw : StreamWriter)
      → marshal msg ≡ ok payload
      → Holds none fs sw.sink
      → sw.closed ≡ false
      → All (IsMarshalled marshal) rest
      → Left (msg ∷ rest) fs
      → Staged (advance marshal marshal_reply (serving (emit_failing (msg ∷ rest) failure)) sw)
  unfolding advance emit_failing resume send_payload
  sent msg rest fs payload sw e holds c ms far =
      let (w, put, holds') = put_frame-none fs flag_data payload sw holds in
      let call : Writer.send marshal msg sw ≡ (record sw { sink = w }, nil) =
        send_open marshal sw msg c ∙ ap (λ r. send_payload r sw) e ∙ put in
      rw call (
        _,
        holds',
        sending rest refl c ms (Sofar-message marshal ends msgs msg rest payload fs e far),
      )

  -- The error frame.
  failed :
      (fs : List Frame) (sw : StreamWriter)
      → Holds none fs sw.sink
      → sw.closed ≡ false
      → sw.beating ≡ false
      → Left [] fs
      → Staged (record { phase = finished; sw = finish marshal_reply failure sw })
  failed fs sw holds c b far =
      let (w, put, holds') = put_frame-none fs flag_error error_payload sw holds in
      let call : finish marshal_reply failure sw ≡ record sw { sink = w } =
        finish_error marshal_reply failure sw fails c
        ∙ ap (λ r. put_error r sw) marshalled
        ∙ ap (λ (r : StreamWriter × GoError). r.0) put in
      rw call (_, holds', over refl b (far _ last))

  handler-Staged : (s : System M) → Staged s → Staged (advance marshal marshal_reply s.phase s.sw)
  handler-Staged s (fs, holds, sending [] p c ms far) =
      subst (λ x. Staged (advance marshal marshal_reply x s.sw)) (sym p)
        (unfold emit_failing advance stop in (fs, holds, joining refl c far))
  handler-Staged s (fs, holds, sending (msg ∷ rest) p c ((payload, e), ms) far) =
      subst (λ x. Staged (advance marshal marshal_reply x s.sw)) (sym p)
        (sent msg rest fs payload s.sw e holds c ms far)
  handler-Staged s (fs, holds, joining p c far) =
      subst (λ x. Staged (advance marshal marshal_reply x s.sw)) (sym p)
        (unfold advance in
          if_intro Staged s.sw.beating (λ b. (fs, holds, joining refl c far))
            (λ b. failed fs s.sw holds c b far))
  handler-Staged s (fs, holds, over p b whole) =
      subst (λ x. Staged (advance marshal marshal_reply x s.sw)) (sym p)
        (unfold advance in (fs, holds, over refl b whole))

  ticker-Staged :
      (s : System M) → s.sw.beating ≡ true → Staged s → Staged (record s { sw = beat s.sw })
  ticker-Staged s on (fs, holds, sending rest p c ms far) =
      ticked (λ v. Staged (record s { sw = v })) fs s.sw c holds
        (λ w h. (_, h, sending rest p c ms (Sofar-heartbeat marshal ends msgs rest fs far)))
  ticker-Staged s on (fs, holds, joining p c far) =
      ticked (λ v. Staged (record s { sw = v })) fs s.sw c holds
        (λ w h. (_, h, joining p c (Sofar-heartbeat marshal ends msgs [] fs far)))
  ticker-Staged s on (fs, holds, over p b whole) = let no : ⊥ = cc in absurd no

  stopper-Staged :
      (s : System M) → Staged s → Staged (record s { sw = record s.sw { beating = false } })
  stopper-Staged s (fs, holds, sending rest p c ms far) = (fs, holds, sending rest p c ms far)
  stopper-Staged s (fs, holds, joining p c far) = (fs, holds, joining p c far)
  stopper-Staged s (fs, holds, over p b whole) = (fs, holds, over p refl whole)

  run-Staged :
      (as' : List Actor) (s : System M) → Staged s → Staged (run marshal marshal_reply as' s)
  unfolding run step
  run-Staged [] s st = st
  run-Staged (handler ∷ as') s st = run-Staged as' _ (handler-Staged s st)
  run-Staged (ticker ∷ as') s st =
      run-Staged as' _ (if_intro Staged s.sw.beating (λ b. ticker-Staged s b st) (λ _. st))
  run-Staged (stopper ∷ as') s st =
      run-Staged as' _
        (if_intro Staged (s.sw.beating && s.sw.stopping) (λ _. stopper-Staged s st) (λ _. st))

  finished-Carries :
      (s : System M)
      → s.phase ≡ finished
      → Staged s
      → (fs : List Frame) × (s.sw.sink.written ≡ encode_all fs) × Carries marshal ends msgs fs
  finished-Carries s f (fs, holds, sending rest p c ms far) = let no : ⊥ = cc in absurd no
  finished-Carries s f (fs, holds, joining p c far) = let no : ⊥ = cc in absurd no
  finished-Carries s f (fs, holds, over p b whole) = (fs, holds.bytes, whole)

  -- On a sink that does not break: once `HandleStream` has returned, the wire holds the messages in
  -- order and then the error frame, whatever the heartbeat goroutine has done.
  pub emit_failing-Carries :
      (heartbeats : Bool) (w : Sink) (as' : List Actor)
      → IsFresh w
      → w.room ≡ none
      → All (IsMarshalled marshal) msgs
      → let s = run marshal marshal_reply as' (start heartbeats w (emit_failing msgs failure)) in
        s.phase ≡ finished
        → (fs : List Frame) × (s.sw.sink.written ≡ encode_all fs) × Carries marshal ends msgs fs
  emit_failing-Carries heartbeats w as' fresh unlimited ms f = finished-Carries _ f (
      run-Staged as' _ (
        unfold start in
        (
          [],
          record { same_room = unlimited; faulty = fresh.faulty; bytes = fresh.empty },
          sending msgs refl refl ms (λ gs c. c),
        )))
