-- ===== src/Streaming/Safety.antt =====
-- The invariant of the system of `Server`, and what follows for the bytes on the wire.
use mathlib.Core.Path.{subst}
use duh_go.Prelude.{ℕ, ◌≡◌, refl, sym, ap, ◌∙◌, ◌⊎◌, inl, inr, Bool, true, false, Bool-cases}
use duh_go.Prelude.{List, [], ◌++◌, Option, ◌&&◌, if_intro}
use mathlib.Core.List.{append-nil}
use duh_go.Errors.{GoError, is_nil, Go, Reply}
use duh_go.Frames.{Bytes, Result}
use duh_go.Frames.{flag_data, flag_final, flag_error, flag_heartbeat}
use duh_go.Streaming.Wire.{Frame, IsOngoing, IsTerminal, IsOpen, IsEnded, IsOpen-concat}
use duh_go.Streaming.Writer
use duh_go.Streaming.Writer.{StreamWriter, marshal_final, beat, finish, build_error_reply}
use duh_go.Streaming.Server.{
  Handler, Phase, serving, closing, returning, finished, panicked, System, Actor, handler, ticker,
  stopper, stop, resume, advance, step,
}
use duh_go.Streaming.Calls.{
  send_closed, send_open, close_closed, close_open, finish_nil, finish_closed, finish_error,
  beat_open,
}
use duh_go.Streaming.Invariant.{
  Holds, IsAtMostOne, nothing, one, Effect, send_payload-Effect, close_payload-Effect,
  put_error-Effect, heartbeat-Effect,
}

abbrev pub over : {M : Type 0} → Phase M → Bool
over finished = true
over _ = false

IsOpen-Effect :
    {flag : ℕ} {gs : List Frame} (fs : List Frame)
    → ((payload : Bytes) → IsOngoing (flag, payload))
    → IsOpen fs
    → IsAtMostOne flag gs
    → IsOpen (fs ++ gs)
IsOpen-Effect fs going h nothing = rw (append-nil fs) h
IsOpen-Effect fs going h (one payload) = IsOpen-concat fs _ h (going payload)

IsEnded-Effect :
    {flag : ℕ} {gs : List Frame} (fs : List Frame)
    → ((payload : Bytes) → IsTerminal (flag, payload))
    → IsOpen fs
    → IsAtMostOne flag gs
    → IsOpen (fs ++ gs) ⊎ IsEnded (fs ++ gs)
IsEnded-Effect fs ends h nothing = inl (rw (append-nil fs) h)
IsEnded-Effect fs ends h (one payload) = inr (fs, _, refl, h, ends payload)

-- The frames `fs` were written, and: as long as the writer is open they may go on; in any case only
-- the last of them may end the stream; behind `Close` and behind the end no goroutine runs.
pub record Inv {M : Type 0} (room : Option ℕ) (fs : List Frame) (s : System M) : Type 0 where
  pub holds : Holds room fs s.sw.sink
  pub going : s.sw.closed ≡ false → over s.phase ≡ false → IsOpen fs
  pub shape : IsOpen fs ⊎ IsEnded fs
  pub quiet : s.sw.closed ≡ true → s.sw.beating ≡ false
  pub still : over s.phase ≡ true → s.sw.beating ≡ false

-- Some more frames, and the invariant.
abbrev pub Grown : {M : Type 0} → Option ℕ → List Frame → System M → Type 0
Grown room fs s = (gs : List Frame) × Inv room (fs ++ gs) s

module _ {M : Type 0} (room : Option ℕ) (fs : List Frame) where
  same : (s : System M) → Inv room fs s → Grown room fs s
  same s inv = ([], rw (append-nil fs) inv)

  -- After an ongoing frame of an open writer.
  goes_on :
      (flag : ℕ) (phase : Phase M) (sw sw' : StreamWriter)
      → ((payload : Bytes) → IsOngoing (flag, payload))
      → IsOpen fs
      → sw.closed ≡ false
      → over phase ≡ false
      → Effect room fs flag sw sw'
      → Grown room fs (record { phase = phase; sw = sw' })
  goes_on flag phase sw sw' ongoing open' c o (gs, few, w) =
      let more = IsOpen-Effect fs ongoing open' few in
      (
        gs,
        record {
          holds = w.holds;
          going = λ _ _. more;
          shape = inl more;
          quiet = λ e. cc;
          still = λ e. cc;
        },
      )

  -- After a frame that ends the stream, with the goroutine joined.
  ends :
      (flag : ℕ) (phase : Phase M) (sw sw' : StreamWriter)
      → ((payload : Bytes) → IsTerminal (flag, payload))
      → IsOpen fs
      → (sw.closed ≡ true) ⊎ (over phase ≡ true)
      → sw.beating ≡ false
      → Effect room fs flag sw sw'
      → Grown room fs (record { phase = phase; sw = sw' })
  ends flag phase sw sw' terminal open' last joined (gs, few, w) = (
    gs,
    record {
      holds = w.holds;
      going = λ c o. elim last [ inl e ↦ cc | inr e ↦ cc ];
      shape = IsEnded-Effect fs terminal open' few;
      quiet = λ _. cc;
      still = λ _. cc;
    },
  )

module _ {M : Type 0} (marshal : M → Result Bytes) (marshal_reply : Reply → Result Bytes)
    (room : Option ℕ) (fs : List Frame) ⦃go : Go⦄ where
  -- Another place in the code, with the same wire.
  moved :
      (p p' : Phase M) (sw sw' : StreamWriter)
      → over p ≡ false
      → over p' ≡ false
      → sw' ≡ record sw { stopping = sw'.stopping }
      → Inv room fs (record { phase = p; sw = sw })
      → Grown room fs (record { phase = p'; sw = sw' })
  moved p p' sw sw' o o' e inv = same room fs _ (record {
    holds = subst (λ w. Holds room fs w) (sym (ap (λ v. v.sink) e)) inv.holds;
    going = λ c _. inv.going (sym (ap (λ v. v.closed) e) ∙ c) o;
    shape = inv.shape;
    quiet = λ c. ap (λ v. v.beating) e ∙ inv.quiet (sym (ap (λ v. v.closed) e) ∙ c);
    still = λ x. cc;
  })

  send-Grown :
      (msg : M) (k : GoError → Handler M) (sw : StreamWriter)
      → Inv room fs (record { phase = serving (Handler.send msg k); sw = sw })
      → Grown room fs (resume marshal marshal_reply k (Writer.send marshal msg sw))
  unfolding resume
  send-Grown msg k sw inv = elim (Bool-cases sw.closed) [
    | inl c ↦ rw (send_closed marshal sw msg c) (moved _ _ sw sw refl refl refl inv)
    | inr c ↦ rw (send_open marshal sw msg c) (
        goes_on room fs flag_data _ sw _ (λ _. inl refl) (inv.going c refl) c refl
          (send_payload-Effect room fs sw inv.holds (marshal msg)))
  ]

  close-Grown :
      (msg : Option M) (k : GoError → Handler M) (sw : StreamWriter)
      → sw.beating ≡ false
      → Inv room fs (record { phase = closing msg k; sw = sw })
      → Grown room fs (resume marshal marshal_reply k (Writer.close marshal msg sw))
  unfolding resume
  close-Grown msg k sw joined inv = elim (Bool-cases sw.closed) [
    | inl c ↦ rw (close_closed marshal sw msg c) (moved _ _ sw sw refl refl refl inv)
    | inr c ↦ rw (close_open marshal sw msg c) (
        ends room fs flag_final _ (record sw { closed = true }) _ (λ _. inl refl) (inv.going c refl)
          (inl refl) joined
          (close_payload-Effect room fs (record sw { closed = true }) inv.holds
            (marshal_final marshal msg)))
  ]

  at_end :
      (e : GoError) (sw : StreamWriter)
      → sw.beating ≡ false
      → Inv {M = M} room fs (record { phase = returning e; sw = sw })
      → Grown {M = M} room fs (record { phase = finished; sw = sw })
  at_end e sw joined inv = same room fs _ (record {
    holds = inv.holds;
    going = λ _ o. cc;
    shape = inv.shape;
    quiet = λ _. joined;
    still = λ _. joined;
  })

  finish-Grown :
      (e : GoError) (sw : StreamWriter)
      → sw.beating ≡ false
      → Inv {M = M} room fs (record { phase = returning e; sw = sw })
      → Grown {M = M} room fs (record { phase = finished; sw = finish marshal_reply e sw })
  finish-Grown e sw joined inv = elim (Bool-cases (is_nil e)) [
    | inl fine ↦ rw (finish_nil marshal_reply e sw fine) (at_end e sw joined inv)
    | inr failed ↦ elim (Bool-cases sw.closed) [
      | inl c ↦ rw (finish_closed marshal_reply e sw c) (at_end e sw joined inv)
      | inr c ↦ rw (finish_error marshal_reply e sw failed c) (
          ends room fs flag_error finished sw _ (λ _. inr refl) (inv.going c refl) (inr refl) joined
            (put_error-Effect room fs sw inv.holds (marshal_reply (build_error_reply e))))
    ]
  ]

  beat-Grown :
      (p : Phase M) (sw : StreamWriter)
      → sw.beating ≡ true
      → Inv room fs (record { phase = p; sw = sw })
      → Grown room fs (record { phase = p; sw = beat sw })
  beat-Grown p sw b inv =
      let c : sw.closed ≡ false = still_open sw.closed inv.quiet in
      subst (λ v. Grown room fs (record { phase = p; sw = v })) (sym (beat_open sw c))
        (goes_on room fs flag_heartbeat p sw _ (λ _. inr refl)
          (inv.going c (not_over (over p) inv.still)) c (not_over (over p) inv.still)
          (heartbeat-Effect room fs sw inv.holds))
    where
      still_open : (x : Bool) → (x ≡ true → sw.beating ≡ false) → x ≡ false
      still_open true q = cc (q refl)
      still_open false q = refl

      not_over : (x : Bool) → (x ≡ true → sw.beating ≡ false) → x ≡ false
      not_over true q = cc (q refl)
      not_over false q = refl

  advance-Grown :
      (p : Phase M) (sw : StreamWriter)
      → Inv room fs (record { phase = p; sw = sw })
      → Grown room fs (advance marshal marshal_reply p sw)
  unfolding advance stop
  advance-Grown (serving (Handler.return e)) sw inv = moved _ _ sw _ refl refl refl inv
  advance-Grown (serving Handler.panic) sw inv = moved _ _ sw _ refl refl refl inv
  advance-Grown (serving (Handler.send msg k)) sw inv = send-Grown msg k sw inv
  advance-Grown (serving (Handler.close msg k)) sw inv = moved _ _ sw _ refl refl refl inv
  advance-Grown (closing msg k) sw inv =
      if_intro (Grown room fs) sw.beating (λ b. same room fs _ inv)
        (λ b. close-Grown msg k sw b inv)
  advance-Grown (returning e) sw inv =
      if_intro (Grown room fs) sw.beating (λ b. same room fs _ inv) (λ b. finish-Grown e sw b inv)
  advance-Grown finished sw inv = same room fs _ inv
  advance-Grown panicked sw inv = same room fs _ inv

  -- Every step keeps the invariant, and adds frames behind those that were written.
  pub step-Grown :
      (a : Actor) (s : System M) → Inv room fs s → Grown room fs (step marshal marshal_reply a s)
  unfolding step
  step-Grown handler s inv = advance-Grown s.phase s.sw inv
  step-Grown ticker s inv =
      if_intro (Grown room fs) s.sw.beating (λ b. beat-Grown s.phase s.sw b inv)
        (λ b. same room fs _ inv)
  step-Grown stopper s inv =
      if_intro (Grown room fs) (s.sw.beating && s.sw.stopping)
        (λ b. same room fs _ (record {
          holds = inv.holds;
          going = inv.going;
          shape = inv.shape;
          quiet = λ _. refl;
          still = λ _. refl;
        }))
        (λ b. same room fs _ inv)
