-- ===== src/Streaming/Emitted.antt =====
-- The server's side of a stream that is sent and closed.
use mathlib.Core.Path.{subst}
use duh_go.Prelude.{◌≡◌, refl, sym, ap, ◌∙◌, ◌⊎◌, inl, inr, Bool, true, false, All}
use duh_go.Prelude.{List, [], ◌∷◌, Option, none, ◌&&◌, if_intro}
use duh_go.Errors.{nil, Go, Reply}
use duh_go.Frames.{Bytes, Result, ok, Sink}
use duh_go.Frames.{flag_data, flag_final}
use duh_go.Streaming.Wire.{Frame, encode_all}
use duh_go.Streaming.Writer
use duh_go.Streaming.Writer.{StreamWriter, send_payload, close_payload, marshal_final, beat}
use duh_go.Streaming.Server.{
  Handler, serving, closing, returning, finished, System, Actor, handler, ticker, stopper, stop,
  resume, advance, step, run, start, emit,
}
use duh_go.Streaming.Calls.{send_open, close_open, finish_nil}
use duh_go.Streaming.Invariant.{Holds}
use duh_go.Streaming.Reach.{IsFresh}
use duh_go.Streaming.Carried.{
  Carries, last, Sofar, Sofar-message, Sofar-heartbeat, put_frame-none, ticked, IsMarshalled,
}

module _ {M : Type 0} (marshal : M → Result Bytes) (marshal_reply : Reply → Result Bytes) ⦃go : Go⦄
    (msgs : List M) (final : Option M) (final_payload : Bytes)
    (marshalled_final : marshal_final marshal final ≡ ok final_payload) where
  -- The end of the stream.
  abbrev ends : List Frame
  ends = (flag_final, final_payload) ∷ []

  abbrev Left : List M → List Frame → Type 0
  Left = Sofar marshal ends msgs

  -- The stages of a stream that `emit` serves, with the frames that were written.
  data Stage (fs : List Frame) (s : System M) : Type 0 where
    sending :
        (rest : List M)
        → s.phase ≡ serving (emit rest final)
        → s.sw.closed ≡ false
        → All (IsMarshalled marshal) rest
        → Left rest fs
        → Stage fs s
    joining :
        s.phase ≡ closing final (λ e. Handler.return e)
        → s.sw.closed ≡ false
        → Left [] fs
        → Stage fs s
    closed :
        (s.phase ≡ serving (Handler.return nil)) ⊎ (s.phase ≡ returning nil) ⊎ (s.phase ≡ finished)
        → s.sw.closed ≡ true
        → s.sw.beating ≡ false
        → Carries marshal ends msgs fs
        → Stage fs s

  -- The stage, and what the sink holds.
  abbrev Staged : System M → Type 0
  Staged s = (fs : List Frame) × Holds none fs s.sw.sink × Stage fs s

  sent :
      (msg : M) (rest : List M) (fs : List Frame) (payload : Bytes) (sw : StreamWriter)
      → marshal msg ≡ ok payload
      → Holds none fs sw.sink
      → sw.closed ≡ false
      → All (IsMarshalled marshal) rest
      → Left (msg ∷ rest) fs
      → Staged (advance marshal marshal_reply (serving (emit (msg ∷ rest) final)) sw)
  unfolding advance emit resume send_payload
  sent msg rest fs payload sw e holds c ms far =
      let (w, put, holds') = put_frame-none fs flag_data payload sw holds in
      let call : Writer.send marshal msg sw ≡ (record sw { sink = w }, nil) =
        send_open marshal sw msg c ∙ ap (λ r. send_payload r sw) e ∙ put in
      rw call (
        _,
        holds',
        sending rest refl c ms (Sofar-message marshal ends msgs msg rest payload fs e far),
      )

  ended :
      (fs : List Frame) (sw : StreamWriter)
      → Holds none fs sw.sink
      → sw.closed ≡ false
      → sw.beating ≡ false
      → Left [] fs
      → Staged
          (resume marshal marshal_reply (λ e. Handler.return e) (Writer.close marshal final sw))
  unfolding resume close_payload
  ended fs sw holds c b far =
      let sw' = record sw { closed = true } in
      let (w, put, holds') = put_frame-none fs flag_final final_payload sw' holds in
      let call : Writer.close marshal final sw ≡ (record sw' { sink = w }, nil) =
        close_open marshal sw final c ∙ ap (λ r. close_payload r sw') marshalled_final ∙ put in
      rw call (_, holds', closed (inl refl) refl b (far _ last))

  handler-Staged : (s : System M) → Staged s → Staged (advance marshal marshal_reply s.phase s.sw)
  handler-Staged s (fs, holds, sending [] p c ms far) =
      subst (λ x. Staged (advance marshal marshal_reply x s.sw)) (sym p)
        (unfold emit advance stop in (fs, holds, joining refl c far))
  handler-Staged s (fs, holds, sending (msg ∷ rest) p c ((payload, e), ms) far) =
      subst (λ x. Staged (advance marshal marshal_reply x s.sw)) (sym p)
        (sent msg rest fs payload s.sw e holds c ms far)
  handler-Staged s (fs, holds, joining p c far) =
      subst (λ x. Staged (advance marshal marshal_reply x s.sw)) (sym p)
        (unfold advance in
          if_intro Staged s.sw.beating (λ b. (fs, holds, joining refl c far))
            (λ b. ended fs s.sw holds c b far))
  handler-Staged s (fs, holds, closed (inl p) c b whole) =
      subst (λ x. Staged (advance marshal marshal_reply x s.sw)) (sym p)
        (unfold advance stop in (fs, holds, closed (inr (inl refl)) c b whole))
  handler-Staged s (fs, holds, closed (inr (inl p)) c b whole) =
      subst (λ x. Staged (advance marshal marshal_reply x s.sw)) (sym p)
        (unfold advance in
          if_intro Staged s.sw.beating (λ _. (fs, holds, closed (inr (inl refl)) c b whole))
            (λ _.
              rw (finish_nil marshal_reply nil s.sw refl)
                (fs, holds, closed (inr (inr refl)) c b whole)))
  handler-Staged s (fs, holds, closed (inr (inr p)) c b whole) =
      subst (λ x. Staged (advance marshal marshal_reply x s.sw)) (sym p)
        (unfold advance in (fs, holds, closed (inr (inr refl)) c b whole))

  ticker-Staged :
      (s : System M) → s.sw.beating ≡ true → Staged s → Staged (record s { sw = beat s.sw })
  ticker-Staged s on (fs, holds, sending rest p c ms far) =
      ticked (λ v. Staged (record s { sw = v })) fs s.sw c holds
        (λ w h. (_, h, sending rest p c ms (Sofar-heartbeat marshal ends msgs rest fs far)))
  ticker-Staged s on (fs, holds, joining p c far) =
      ticked (λ v. Staged (record s { sw = v })) fs s.sw c holds
        (λ w h. (_, h, joining p c (Sofar-heartbeat marshal ends msgs [] fs far)))
  ticker-Staged s on (fs, holds, closed p c b whole) = let no : ⊥ = cc in absurd no

  stopper-Staged :
      (s : System M) → Staged s → Staged (record s { sw = record s.sw { beating = false } })
  stopper-Staged s (fs, holds, sending rest p c ms far) = (fs, holds, sending rest p c ms far)
  stopper-Staged s (fs, holds, joining p c far) = (fs, holds, joining p c far)
  stopper-Staged s (fs, holds, closed p c b whole) = (fs, holds, closed p c refl whole)

  run-Staged :
      (as' : List Actor) (s : System M) → Staged s → Staged (run marshal marshal_reply as' s)
  unfolding run step
  run-Staged [] s st = st
  run-Staged (handler ∷ as') s st = run-Staged as' _ (handler-Staged s st)
  run-Staged (ticker ∷ as') s st =
      run-Staged as' _ (if_intro Staged s.sw.beating (λ b. ticker-Staged s b st) (λ _. st))
  run-Staged (stopper ∷ as') s st =
      run-Staged as' _
        (if_intro Staged (s.sw.beating && s.sw.stopping) (λ _. stopper-Staged s st) (λ _. st))

  finished-Carries :
      (s : System M)
      → s.phase ≡ finished
      → Staged s
      → (fs : List Frame) × (s.sw.sink.written ≡ encode_all fs) × Carries marshal ends msgs fs
  finished-Carries s f (fs, holds, sending rest p c ms far) = let no : ⊥ = cc in absurd no
  finished-Carries s f (fs, holds, joining p c far) = let no : ⊥ = cc in absurd no
  finished-Carries s f (fs, holds, closed p c b whole) = (fs, holds.bytes, whole)

  -- On a sink that does not break, when every message and the final one marshal: once
  -- `HandleStream` has returned, the wire holds exactly one complete stream of the messages, in
  -- order, whatever the heartbeat goroutine has done.
  pub emit-Carries :
      (heartbeats : Bool) (w : Sink) (as' : List Actor)
      → IsFresh w
      → w.room ≡ none
      → All (IsMarshalled marshal) msgs
      → let s = run marshal marshal_reply as' (start heartbeats w (emit msgs final)) in
        s.phase ≡ finished
        → (fs : List Frame) × (s.sw.sink.written ≡ encode_all fs) × Carries marshal ends msgs fs
  emit-Carries heartbeats w as' fresh unlimited ms f = finished-Carries _ f (
      run-Staged as' _ (
        unfold start in
        (
          [],
          record { same_room = unlimited; faulty = fresh.faulty; bytes = fresh.empty },
          sending msgs refl refl ms (λ gs c. c),
        )))
