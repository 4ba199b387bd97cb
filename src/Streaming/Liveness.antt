-- ===== src/Streaming/Liveness.antt =====
-- `HandleStream` comes to an end: no goroutine waits for ever.
use duh_go.Prelude.{◌≡◌, refl, sym, ap, ◌∙◌, Bool, true, false}
use duh_go.Prelude.{List, Option, [], ◌∷◌, ◌++◌, if◌then◌else◌, ◌&&◌, if_intro}
use duh_go.Errors.{is_nil, GoError, Go, Reply}
use duh_go.Frames.{Bytes, Result, Sink}
use duh_go.Streaming.Writer
use duh_go.Streaming.Writer.{StreamWriter, beat}
use duh_go.Streaming.Server.{
  Handler, Phase, serving, closing, returning, finished, panicked, System, Actor, handler, ticker,
  stopper, stop, resume, advance, step, run, start, emit,
}
use duh_go.Streaming.Reach.{run-append}

-- A handler that returns, whatever its calls return.
abbrev pub Returns : {M : Type 0} → Handler M → Type 0
Returns (Handler.return e) = Unit
Returns Handler.panic = ⊥
Returns (Handler.send msg k) = (e : GoError) → Returns (k e)
Returns (Handler.close msg k) = (e : GoError) → Returns (k e)

-- The handler is to return, and who waits for the heartbeat goroutine has told it to stop.
abbrev pub HasStopped : {M : Type 0} → Phase M → StreamWriter → Type 0
HasStopped (serving h) sw = Returns h
HasStopped (closing msg k) sw = (sw.stopping ≡ true) × ((e : GoError) → Returns (k e))
HasStopped (returning e) sw = sw.stopping ≡ true
HasStopped finished sw = Unit
HasStopped panicked sw = ⊥

beat_stopping : (sw : StreamWriter) → (beat sw).stopping ≡ sw.stopping
unfolding beat
beat_stopping sw =
    if_intro (λ (v : StreamWriter). v.stopping ≡ sw.stopping) sw.closed (λ _. refl) (λ _. refl)

module _ {M : Type 0} (marshal : M → Result Bytes) (marshal_reply : Reply → Result Bytes)
    ⦃go : Go⦄ where
  -- Some schedule leads to the end.
  abbrev pub CanFinish : System M → Type 0
  CanFinish s = (bs : List Actor) × ((run marshal marshal_reply bs s).phase ≡ finished)

  one_step : (a : Actor) (s : System M) → CanFinish (step marshal marshal_reply a s) → CanFinish s
  unfolding run
  one_step a s (bs, e) = (a ∷ bs, e)

  -- Once the goroutine has been told to stop, it does.
  stop_first :
      (p : Phase M) (sw : StreamWriter)
      → sw.stopping ≡ true
      → ((sw' : StreamWriter) → sw'.beating ≡ false → CanFinish (record { phase = p; sw = sw' }))
      → CanFinish (record { phase = p; sw = sw })
  unfolding step
  stop_first p sw h k = one_step stopper _ (
      if_intro CanFinish (sw.beating && sw.stopping) (λ b. k (record sw { beating = false }) refl)
        (λ b. k sw (not_beating sw.beating (ap (λ c. sw.beating && c) (sym h) ∙ b))))
    where
      not_beating : (c : Bool) → (c && true) ≡ false → c ≡ false
      not_beating true e = e
      not_beating false e = refl

  past_join :
      (x y : System M) (sw : StreamWriter)
      → sw.beating ≡ false
      → CanFinish y
      → CanFinish (if sw.beating then x else y)
  past_join x y sw b h = if_intro CanFinish sw.beating (λ t. let no : ⊥ = cc in absurd no) (λ _. h)

  at_return :
      (e : GoError) (sw : StreamWriter)
      → sw.stopping ≡ true
      → CanFinish (record { phase = returning e; sw = sw })
  unfolding step advance run
  at_return e sw h =
      stop_first (returning e) sw h (λ sw' b. one_step handler _ (past_join _ _ sw' b ([], refl)))

  at_handler :
      (h : Handler M) (sw : StreamWriter)
      → Returns h
      → CanFinish (record { phase = serving h; sw = sw })
  unfolding step advance resume stop
  at_handler (Handler.return e) sw r = one_step handler _ (at_return e (stop sw) refl)
  at_handler Handler.panic sw r = absurd r
  at_handler (Handler.send msg k) sw r =
      let sent = Writer.send marshal msg sw in
      one_step handler _ (at_handler (k sent.1) sent.0 (r sent.1))
  at_handler (Handler.close msg k) sw r = one_step handler _ (
      stop_first (closing msg k) (stop sw) refl (λ sw' b. one_step handler _ (
        past_join _ _ sw' b (
          at_handler (k (Writer.close marshal msg sw').1) (Writer.close marshal msg sw').0
            (r (Writer.close marshal msg sw').1)))))

  at_phase :
      (p : Phase M) (sw : StreamWriter)
      → HasStopped p sw
      → CanFinish (record { phase = p; sw = sw })
  unfolding step advance resume run
  at_phase (serving h) sw r = at_handler h sw r
  at_phase (closing msg k) sw (h, r) = stop_first (closing msg k) sw h (λ sw' b.
      one_step handler _ (
        past_join _ _ sw' b (
          at_handler (k (Writer.close marshal msg sw').1) (Writer.close marshal msg sw').0
            (r (Writer.close marshal msg sw').1))))
  at_phase (returning e) sw h = at_return e sw h
  at_phase finished sw _ = ([], refl)
  at_phase panicked sw h = absurd h

  advance-HasStopped :
      (p : Phase M) (sw : StreamWriter)
      → HasStopped p sw
      → HasStopped
          (advance marshal marshal_reply p sw).phase
          (advance marshal marshal_reply p sw).sw
  unfolding advance resume stop
  advance-HasStopped (serving (Handler.return e)) sw h = refl
  advance-HasStopped (serving Handler.panic) sw h = h
  advance-HasStopped (serving (Handler.send msg k)) sw h = h (Writer.send marshal msg sw).1
  advance-HasStopped (serving (Handler.close msg k)) sw h = (refl, h)
  advance-HasStopped (closing msg k) sw (h, r) =
      if_intro (λ (s : System M). HasStopped s.phase s.sw) sw.beating (λ _. (h, r))
        (λ _. r (Writer.close marshal msg sw).1)
  advance-HasStopped (returning e) sw h =
      if_intro (λ (s : System M). HasStopped s.phase s.sw) sw.beating (λ _. h) (λ _. tt)
  advance-HasStopped finished sw h = tt
  advance-HasStopped panicked sw h = h

  HasStopped-same :
      (p : Phase M) (sw sw' : StreamWriter)
      → sw'.stopping ≡ sw.stopping
      → HasStopped p sw
      → HasStopped p sw'
  HasStopped-same (serving h) sw sw' e s = s
  HasStopped-same (closing msg k) sw sw' e (s, r) = (e ∙ s, r)
  HasStopped-same (returning x) sw sw' e s = e ∙ s
  HasStopped-same finished sw sw' e s = tt
  HasStopped-same panicked sw sw' e s = s

  step-HasStopped :
      (a : Actor) (s : System M)
      → HasStopped s.phase s.sw
      → HasStopped (step marshal marshal_reply a s).phase (step marshal marshal_reply a s).sw
  unfolding step
  step-HasStopped handler s h = advance-HasStopped s.phase s.sw h
  step-HasStopped ticker s h =
      if_intro (λ (t : System M). HasStopped t.phase t.sw) s.sw.beating
        (λ _. HasStopped-same s.phase s.sw _ (beat_stopping s.sw) h) (λ _. h)
  step-HasStopped stopper s h =
      if_intro (λ (t : System M). HasStopped t.phase t.sw) (s.sw.beating && s.sw.stopping)
        (λ _. HasStopped-same s.phase s.sw _ refl h) (λ _. h)

  run-HasStopped :
      (as' : List Actor) (s : System M)
      → HasStopped s.phase s.sw
      → HasStopped (run marshal marshal_reply as' s).phase (run marshal marshal_reply as' s).sw
  unfolding run
  run-HasStopped [] s h = h
  run-HasStopped (a ∷ as') s h =
      run-HasStopped as' (step marshal marshal_reply a s) (step-HasStopped a s h)

  -- Whatever has happened, for any handler that does not panic and on any sink: `HandleStream` can
  -- still go on to its end. No goroutine waits for one that never comes.
  pub no_deadlock :
      (heartbeats : Bool) (w : Sink) (program : Handler M) (as' : List Actor)
      → Returns program
      → (bs : List Actor) × ((run marshal marshal_reply
            (as' ++ bs)
            (start heartbeats w program)).phase
          ≡ finished)
  unfolding start
  no_deadlock heartbeats w program as' returns =
      let s = run marshal marshal_reply as' (start heartbeats w program) in
      let (bs, e) =
        at_phase s.phase s.sw (run-HasStopped as' (start heartbeats w program) returns) in
      (bs, ap (λ t. t.phase) (run-append marshal marshal_reply as' bs _) ∙ e)

-- A handler that sends messages and closes the stream returns.
pub emit-Returns : {M : Type 0} (msgs : List M) (final : Option M) → Returns (emit msgs final)
unfolding emit
emit-Returns [] final = λ e. tt
emit-Returns (msg ∷ msgs) final =
    λ e. if_intro Returns (is_nil e) (λ _. emit-Returns msgs final) (λ _. tt)
