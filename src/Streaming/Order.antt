-- ===== src/Streaming/Order.antt =====
-- What a stream puts on the wire under any schedule.
use duh_go.Prelude.{◌≡◌, refl, sym, ap, ◌∙◌, ◌⊎◌, inl, inr, Bool, false}
use duh_go.Prelude.{List, [], ◌∷◌, ◌++◌, if◌then◌else◌, ◌&&◌}
use duh_go.Errors.{Go, Reply}
use duh_go.Frames.{Bytes, Result, Sink, clip}
use duh_go.Streaming.Wire.{Frame, encode_all, IsOpen, IsEnded}
use duh_go.Streaming.Writer.{beat}
use duh_go.Streaming.Server.{
  Handler, finished, System, Actor, handler, ticker, stopper, advance, step, run, start,
}
use duh_go.Streaming.Safety.{over}
use duh_go.Streaming.Reach.{IsFresh, last_frame, run-append, run-Grown, start-Inv}

module _ {M : Type 0} (marshal : M → Result Bytes) (marshal_reply : Reply → Result Bytes) ⦃go : Go⦄
    (heartbeats : Bool) (w : Sink) (program : Handler M) where
  -- The bytes on the wire after a schedule.
  abbrev pub wire : List Actor → Bytes
  wire as' = (run marshal marshal_reply as' (start heartbeats w program)).sw.sink.written

  -- On a sink that may break at any byte, for any handler, with heartbeats or without, and after any
  -- two schedules one behind the other: the bytes on the wire are the encodings of some frames `fs`,
  -- then of `fs` and some more frames `gs`, as far as the sink took them. All of `fs` are data or
  -- heartbeat frames, or all but the last are and that is a final or an error frame, and then `gs`
  -- is empty. The same holds of `fs` and `gs` together, but for the last.
  pub wire_shape :
      (as' bs : List Actor)
      → IsFresh w
      → (fs : List Frame) × (gs : List Frame) × (wire as' ≡ clip w.room 0 (encode_all fs))
        × (wire (as' ++ bs) ≡ clip w.room 0 (encode_all (fs ++ gs)))
        × (IsOpen fs ⊎ (IsEnded fs × (gs ≡ [])))
        × (IsOpen (fs ++ gs) ⊎ IsEnded (fs ++ gs))
  wire_shape as' bs fresh =
      let (fs, inv) =
        run-Grown marshal marshal_reply w.room [] as' _
          (start-Inv marshal marshal_reply heartbeats w program fresh) in
      let (gs, inv') = run-Grown marshal marshal_reply w.room fs bs _ inv in
      (
        fs,
        gs,
        inv.holds.bytes,
        ap (λ s. s.sw.sink.written) (run-append marshal marshal_reply as' bs _) ∙ inv'.holds.bytes,
        ended fs gs inv.shape inv'.shape,
        inv'.shape,
      )
    where
      ended :
          (fs gs : List Frame)
          → IsOpen fs ⊎ IsEnded fs
          → IsOpen (fs ++ gs) ⊎ IsEnded (fs ++ gs)
          → IsOpen fs ⊎ (IsEnded fs × (gs ≡ []))
      ended fs gs (inl o) s = inl o
      ended fs gs (inr e) s = inr (e, last_frame fs gs e s)

  step_finished :
      (a : Actor) (s : System M)
      → s.phase ≡ finished
      → s.sw.beating ≡ false
      → step marshal marshal_reply a s ≡ s
  unfolding step advance
  step_finished handler s f b =
      ap (λ p. advance marshal marshal_reply p s.sw) f
      ∙ (λ i. record { phase = sym f i; sw = s.sw })
  step_finished ticker s f b = ap (λ c. if c then record s { sw = beat s.sw } else s) b
  step_finished stopper s f b =
      ap (λ c. if c && s.sw.stopping then record s { sw = record s.sw { beating = false } } else s)
        b

  run_finished :
      (bs : List Actor) (s : System M)
      → s.phase ≡ finished
      → s.sw.beating ≡ false
      → run marshal marshal_reply bs s ≡ s
  unfolding run
  run_finished [] s f b = refl
  run_finished (a ∷ bs) s f b =
      ap (run marshal marshal_reply bs) (step_finished a s f b) ∙ run_finished bs s f b

  -- When `HandleStream` has returned, the heartbeat goroutine has ended, and no schedule changes the
  -- system any more: nothing is written or flushed.
  pub joined :
      (as' bs : List Actor)
      → IsFresh w
      → let s = run marshal marshal_reply as' (start heartbeats w program) in
        s.phase ≡ finished → (s.sw.beating ≡ false) × (run marshal marshal_reply bs s ≡ s)
  joined as' bs fresh f =
      let (fs, inv) =
        run-Grown marshal marshal_reply w.room [] as' _
          (start-Inv marshal marshal_reply heartbeats w program fresh) in
      let quiet = inv.still (ap over f) in (quiet, run_finished bs _ f quiet)
