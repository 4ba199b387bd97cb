-- ===== src/Streaming/Panic.antt =====
-- A handler that panics: `HandleStream` unwinds, and nobody stops the heartbeat goroutine.
use duh_go.Prelude.{◌≡◌, refl, sym, ap, ◌∙◌, Bool, true, false, ℕ}
use duh_go.Prelude.{List, [], ◌∷◌, Option, ◌&&◌, if_intro}
use duh_go.Errors.{GoError, is_nil, Go, Reply}
use duh_go.Frames.{Bytes, Result, ok, err, Sink, write_frame, flag_data, flag_final, flag_error}
use duh_go.Streaming.Writer
use duh_go.Streaming.Writer.{
  StreamWriter, beat, settle, put_frame, send_payload, close_payload, marshal_final, finish,
  put_error, build_error_reply,
}
use duh_go.Streaming.Server.{
  Handler, Phase, serving, closing, returning, finished, panicked, System, Actor, handler, ticker,
  stopper, stop, resume, advance, step, run, start,
}

-- A writer with the flags of another.
pub record SameFlags (sw sw' : StreamWriter) : Type 0 where
  pub closed : sw'.closed ≡ sw.closed
  pub stopping : sw'.stopping ≡ sw.stopping
  pub beating : sw'.beating ≡ sw.beating

same_flags : (sw : StreamWriter) (w : Sink) → SameFlags sw (record sw { sink = w })
same_flags sw w = record { closed = refl; stopping = refl; beating = refl }

put_frame-SameFlags :
    (flag : ℕ) (payload : Bytes) (sw : StreamWriter) → SameFlags sw (put_frame flag payload sw).0
unfolding put_frame settle
put_frame-SameFlags flag payload sw =
    if_intro (λ (r : StreamWriter × GoError). SameFlags sw r.0)
      (is_nil (write_frame flag payload sw.sink).1) (λ _. same_flags sw _) (λ _. same_flags sw _)

-- Who waits for the heartbeat goroutine.
abbrev waits : {M : Type 0} → Phase M → Bool
waits (closing msg k) = true
waits (returning e) = true
waits finished = true
waits (serving h) = false
waits panicked = false

-- Who waits for the heartbeat goroutine has told it to stop, and it runs, on an open writer, until
-- somebody has.
pub record Beats {M : Type 0} (s : System M) : Type 0 where
  pub told : waits s.phase ≡ true → s.sw.stopping ≡ true
  pub runs : s.sw.stopping ≡ false → (s.sw.closed ≡ false) × (s.sw.beating ≡ true)

-- Behind a panic, with `stop` still open.
pub record IsLost {M : Type 0} (s : System M) : Type 0 where
  pub phase : s.phase ≡ panicked
  pub stopping : s.sw.stopping ≡ false

module _ {M : Type 0} (marshal : M → Result Bytes) (marshal_reply : Reply → Result Bytes)
    ⦃go : Go⦄ where
  stopping-Beats : (s : System M) → s.sw.stopping ≡ true → Beats s
  stopping-Beats s h = record { told = λ _. h; runs = λ f. let no : ⊥ = cc in absurd no }

  SameFlags-Beats :
      (p q : Phase M) (sw sw' : StreamWriter)
      → waits q ≡ false
      → SameFlags sw sw'
      → Beats (record { phase = p; sw = sw })
      → Beats (record { phase = q; sw = sw' })
  SameFlags-Beats p q sw sw' w same b = record {
    told = λ h. let no : ⊥ = cc in absurd no;
    runs = λ f. let (c, k) = b.runs (sym same.stopping ∙ f) in (same.closed ∙ c, same.beating ∙ k);
  }

  send-SameFlags : (msg : M) (sw : StreamWriter) → SameFlags sw (Writer.send marshal msg sw).0
  unfolding Writer.send send_payload
  send-SameFlags msg sw =
      if_intro (λ (r : StreamWriter × GoError). SameFlags sw r.0) sw.closed
        (λ _. same_flags sw sw.sink) (λ _. by_payload (marshal msg))
    where
      by_payload : (r : Result Bytes) → SameFlags sw (send_payload r sw).0
      by_payload (ok payload) = put_frame-SameFlags flag_data payload sw
      by_payload (err e) = same_flags sw sw.sink

  close_stopping :
      (msg : Option M) (sw : StreamWriter) → (Writer.close marshal msg sw).0.stopping ≡ sw.stopping
  unfolding Writer.close close_payload put_frame
  close_stopping msg sw =
      if_intro (λ (r : StreamWriter × GoError). r.0.stopping ≡ sw.stopping) sw.closed (λ _. refl)
        (λ _. by_payload (marshal_final marshal msg))
    where
      by_payload :
          (r : Result Bytes)
          → (close_payload r (record sw { closed = true })).0.stopping ≡ sw.stopping
      by_payload (ok payload) =
          (put_frame-SameFlags flag_final payload (record sw { closed = true })).stopping
      by_payload (err e) = refl

  finish_stopping :
      (e : GoError) (sw : StreamWriter) → (finish marshal_reply e sw).stopping ≡ sw.stopping
  unfolding finish
  finish_stopping e sw =
      if_intro (λ (v : StreamWriter). v.stopping ≡ sw.stopping) (is_nil e) (λ _. refl)
        (λ _.
          if_intro (λ (v : StreamWriter). v.stopping ≡ sw.stopping) sw.closed (λ _. refl)
            (λ _. by_payload (marshal_reply (build_error_reply e))))
    where
      by_payload : (r : Result Bytes) → (put_error r sw).stopping ≡ sw.stopping
      by_payload (ok payload) = (put_frame-SameFlags flag_error payload sw).stopping
      by_payload (err e) = refl

  advance-Beats :
      (p : Phase M) (sw : StreamWriter)
      → Beats (record { phase = p; sw = sw })
      → Beats (advance marshal marshal_reply p sw)
  unfolding advance resume stop
  advance-Beats (serving (Handler.return e)) sw b = stopping-Beats _ refl
  advance-Beats (serving Handler.panic) sw b =
      SameFlags-Beats (serving Handler.panic) panicked sw sw refl (same_flags sw sw.sink) b
  advance-Beats (serving (Handler.send msg k)) sw b =
      SameFlags-Beats (serving (Handler.send msg k)) _ sw _ refl (send-SameFlags msg sw) b
  advance-Beats (serving (Handler.close msg k)) sw b = stopping-Beats _ refl
  advance-Beats (closing msg k) sw b =
      if_intro Beats sw.beating (λ _. b)
        (λ _. stopping-Beats _ (close_stopping msg sw ∙ b.told refl))
  advance-Beats (returning e) sw b =
      if_intro Beats sw.beating (λ _. b)
        (λ _. stopping-Beats _ (finish_stopping e sw ∙ b.told refl))
  advance-Beats finished sw b = b
  advance-Beats panicked sw b = b

  -- A tick of an open writer leaves the flags as they are.
  beat-Beats : (s : System M) → Beats s → Beats (record s { sw = beat s.sw })
  unfolding beat
  beat-Beats s b =
      if_intro (λ (v : StreamWriter). Beats (record s { sw = v })) s.sw.closed
        (λ c. record {
          told = b.told;
          runs = λ f. let (o, _) = b.runs f in let no : ⊥ = cc in absurd no;
        })
        (λ _. record { told = b.told; runs = b.runs })

  step-Beats : (a : Actor) (s : System M) → Beats s → Beats (step marshal marshal_reply a s)
  unfolding step
  step-Beats handler s b = advance-Beats s.phase s.sw b
  step-Beats ticker s b = if_intro Beats s.sw.beating (λ _. beat-Beats s b) (λ _. b)
  step-Beats stopper s b =
      if_intro Beats (s.sw.beating && s.sw.stopping)
        (λ h. stopping-Beats _ (second s.sw.beating s.sw.stopping h)) (λ _. b)
    where
      second : (x y : Bool) → (x && y) ≡ true → y ≡ true
      second true y h = h
      second false y h = let no : ⊥ = cc in absurd no

  run-Beats : (as' : List Actor) (s : System M) → Beats s → Beats (run marshal marshal_reply as' s)
  unfolding run
  run-Beats [] s b = b
  run-Beats (a ∷ as') s b = run-Beats as' (step marshal marshal_reply a s) (step-Beats a s b)

  advance_panicked :
      (s : System M)
      → s.phase ≡ panicked
      → advance marshal marshal_reply s.phase s.sw ≡ record { phase = panicked; sw = s.sw }
  unfolding advance
  advance_panicked s p = ap (λ (q : Phase M). advance marshal marshal_reply q s.sw) p

  beat_stopping : (sw : StreamWriter) → (beat sw).stopping ≡ sw.stopping
  unfolding beat
  beat_stopping sw =
      if_intro (λ (v : StreamWriter). v.stopping ≡ sw.stopping) sw.closed (λ _. refl) (λ _. refl)

  step-IsLost : (a : Actor) (s : System M) → IsLost s → IsLost (step marshal marshal_reply a s)
  unfolding step
  step-IsLost handler s l = record {
    phase = ap (λ (t : System M). t.phase) (advance_panicked s l.phase);
    stopping = ap (λ (t : System M). t.sw.stopping) (advance_panicked s l.phase) ∙ l.stopping;
  }
  step-IsLost ticker s l =
      if_intro IsLost s.sw.beating
        (λ _. record { phase = l.phase; stopping = beat_stopping s.sw ∙ l.stopping }) (λ _. l)
  step-IsLost stopper s l =
      if_intro IsLost (s.sw.beating && s.sw.stopping)
        (λ _. record { phase = l.phase; stopping = l.stopping }) (λ _. l)

  run-IsLost :
      (as' : List Actor) (s : System M) → IsLost s → IsLost (run marshal marshal_reply as' s)
  unfolding run
  run-IsLost [] s l = l
  run-IsLost (a ∷ as') s l = run-IsLost as' (step marshal marshal_reply a s) (step-IsLost a s l)

  start-Beats : (w : Sink) (program : Handler M) → Beats (start true w program)
  unfolding start
  start-Beats w program = record {
    told = λ h. let no : ⊥ = cc in absurd no;
    runs = λ _. (refl, refl);
  }

  -- For a handler that has panicked before it called `Close`, with the heartbeats started, whatever
  -- steps led there: whatever steps follow, `HandleStream` does not get past the panic, nobody tells
  -- the heartbeat goroutine to stop, the writer stays open and the goroutine goes on.
  pub run-panicked :
      (w : Sink) (program : Handler M) (as' bs : List Actor)
      → IsLost (run marshal marshal_reply as' (start true w program))
      → let s : System M =
          run marshal marshal_reply bs (run marshal marshal_reply as' (start true w program)) in
        IsLost s × ((s.sw.closed ≡ false) × (s.sw.beating ≡ true))
  run-panicked w program as' bs l =
      let s = run marshal marshal_reply as' (start true w program) in
      let lost = run-IsLost bs s l in
      (
        lost,
        (run-Beats bs s (run-Beats as' (start true w program) (start-Beats w program))).runs
            lost.stopping,
      )
