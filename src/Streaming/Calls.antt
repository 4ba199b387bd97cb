-- ===== src/Streaming/Calls.antt =====
-- The branches of `Send`, `Close` and the end of `HandleStream`, as equations for the proofs.
use duh_go.Prelude.{◌≡◌, refl, ap, ◌∙◌, Bool, true, false, [], Option, if◌then◌else◌}
use duh_go.Errors.{GoError, sentinel, stream_closed, is_nil, Go, Reply}
use duh_go.Frames.{Bytes, Result, flush, write_frame, flag_heartbeat}
use duh_go.Streaming.Writer.{
  StreamWriter, send, close, finish, beat, send_payload, close_payload, marshal_final, put_error,
  build_error_reply,
}

module _ {M : Type 0} (marshal : M → Result Bytes) ⦃go : Go⦄ (sw : StreamWriter) where
  pub send_closed :
      (msg : M) → sw.closed ≡ true → send marshal msg sw ≡ (sw, sentinel stream_closed)
  unfolding send
  send_closed msg h =
      ap (λ b. if b then (sw, sentinel stream_closed) else send_payload (marshal msg) sw) h

  pub send_open :
      (msg : M) → sw.closed ≡ false → send marshal msg sw ≡ send_payload (marshal msg) sw
  unfolding send
  send_open msg h =
      ap (λ b. if b then (sw, sentinel stream_closed) else send_payload (marshal msg) sw) h

  pub close_closed :
      (msg : Option M) → sw.closed ≡ true → close marshal msg sw ≡ (sw, sentinel stream_closed)
  unfolding close
  close_closed msg h =
      ap
        (λ b.
          if b
          then (sw, sentinel stream_closed)
          else close_payload (marshal_final marshal msg) (record sw { closed = true }))
        h

  pub close_open :
      (msg : Option M)
      → sw.closed ≡ false
      → close marshal msg sw
        ≡ close_payload (marshal_final marshal msg) (record sw { closed = true })
  unfolding close
  close_open msg h =
      ap
        (λ b.
          if b
          then (sw, sentinel stream_closed)
          else close_payload (marshal_final marshal msg) (record sw { closed = true }))
        h

module _ ⦃go : Go⦄ (marshal_reply : Reply → Result Bytes) (e : GoError) (sw : StreamWriter) where
  -- The error frame of `HandleStream`.
  abbrev pub error_frame : StreamWriter
  error_frame = put_error (marshal_reply (build_error_reply e)) sw

  pub finish_nil : is_nil e ≡ true → finish marshal_reply e sw ≡ sw
  unfolding finish
  finish_nil h = ap (λ b. if b then sw else if sw.closed then sw else error_frame) h

  pub finish_closed : sw.closed ≡ true → finish marshal_reply e sw ≡ sw
  unfolding finish
  finish_closed h =
      ap (λ b. if is_nil e then sw else if b then sw else error_frame) h ∙ either (is_nil e)
    where
      either : (b : Bool) → (if b then sw else sw) ≡ sw
      either true = refl
      either false = refl

  pub finish_error : is_nil e ≡ false → sw.closed ≡ false → finish marshal_reply e sw ≡ error_frame
  unfolding finish
  finish_error h c =
      ap (λ b. if b then sw else if sw.closed then sw else error_frame) h
      ∙ ap (λ b. if b then sw else error_frame) c

pub beat_open :
    (sw : StreamWriter)
    → sw.closed ≡ false
    → beat sw ≡ record sw { sink = flush (write_frame flag_heartbeat [] sw.sink).0 }
unfolding beat
beat_open sw c =
    ap
      (λ b.
        if b
        then record sw { beating = false }
        else record sw { sink = flush (write_frame flag_heartbeat [] sw.sink).0 })
      c
