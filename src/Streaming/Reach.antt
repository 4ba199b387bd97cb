-- ===== src/Streaming/Reach.antt =====
-- What a stream puts on the wire under any schedule, and that it comes to an end.
use duh_go.Prelude.{ℕ, zero, suc, ◌≡◌, refl, sym, ap, ◌∙◌, arith, ◌⊎◌, inl, inr, Bool}
use duh_go.Prelude.{List, [], ◌∷◌, ◌++◌, Option, none, some}
use mathlib.Core.List.{append_assoc, append-nil}
use duh_go.Errors.{Go, Reply}
use duh_go.Frames.{Bytes, Result, Sink, clip}
use duh_go.Frames.Writes.{IsFaulty}
use duh_go.Streaming.Wire.{Frame, IsOpen, IsEnded, IsOngoing, IsTerminal}
use duh_go.Streaming.Server.{Handler, System, Actor, step, run, start}
use duh_go.Streaming.Safety.{Inv, Grown, step-Grown}

-- A sink on which nothing has been written.
pub record IsFresh (w : Sink) : Type 0 where
  pub empty : w.written ≡ []
  pub faulty : IsFaulty w

not_both : (f : Frame) → IsOngoing f → IsTerminal f → ⊥
not_both f a b = ground arith

last_of_open :
    (front : List Frame) (last : Frame) (gs : List Frame)
    → IsTerminal last
    → IsOpen ((front ++ (last ∷ [])) ++ gs)
    → ⊥
last_of_open [] last gs t all = not_both last all.0 t
last_of_open (f ∷ front) last gs t all = last_of_open front last gs t all.1

last_of_ended :
    (front : List Frame) (last : Frame) (gs front' : List Frame) (last' : Frame)
    → IsOpen front
    → IsTerminal last
    → IsOpen front'
    → IsTerminal last'
    → (front ++ (last ∷ [])) ++ gs ≡ front' ++ (last' ∷ [])
    → gs ≡ []
last_of_ended [] last gs [] last' o t o' t' e = cc
last_of_ended [] last gs (f' ∷ front') last' o t o' t' e =
    let first : last ≡ f' = cc in absurd (not_both f' o'.0 (rw (← first) t))
last_of_ended (f ∷ front) last gs [] last' o t o' t' e =
    let first : f ≡ last' = cc in absurd (not_both f o.0 (rw first t'))
last_of_ended (f ∷ front) last gs (f' ∷ front') last' o t o' t' e =
    last_of_ended front last gs front' last' o.1 t o'.1 t' (cc)

-- Nothing stands behind the frame that ended a stream.
pub last_frame :
    (fs gs : List Frame) → IsEnded fs → IsOpen (fs ++ gs) ⊎ IsEnded (fs ++ gs) → gs ≡ []
last_frame fs gs (front, last, e, o, t) (inl all) =
    absurd (last_of_open front last gs t (rw e at all))
last_frame fs gs (front, last, e, o, t) (inr (front', last', e', o', t')) =
    last_of_ended front last gs front' last' o t o' t' (ap (λ x. x ++ gs) (sym e) ∙ e')

clip-nil : (room : Option ℕ) → clip room 0 [] ≡ []
clip-nil none = refl
clip-nil (some zero) = refl
clip-nil (some (suc r)) = ground arith

module _ {M : Type 0} (marshal : M → Result Bytes) (marshal_reply : Reply → Result Bytes)
    ⦃go : Go⦄ where
  pub run-append :
      (as' bs : List Actor) (s : System M)
      → run marshal marshal_reply (as' ++ bs) s
        ≡ run marshal marshal_reply bs (run marshal marshal_reply as' s)
  unfolding run
  run-append [] bs s = refl
  run-append (a ∷ as') bs s = run-append as' bs (step marshal marshal_reply a s)

  pub run-Grown :
      (room : Option ℕ) (fs : List Frame) (as' : List Actor) (s : System M)
      → Inv room fs s
      → Grown room fs (run marshal marshal_reply as' s)
  unfolding run
  run-Grown room fs [] s inv = ([], rw (append-nil fs) inv)
  run-Grown room fs (a ∷ as') s inv =
      let (gs, inv') = step-Grown marshal marshal_reply room fs a s inv in
      let (hs, inv'') = run-Grown room (fs ++ gs) as' (step marshal marshal_reply a s) inv' in
      (gs ++ hs, rw (← append_assoc fs gs hs) inv'')

  pub start-Inv :
      (heartbeats : Bool) (w : Sink) (program : Handler M)
      → IsFresh w
      → Inv w.room [] (start heartbeats w program)
  unfolding start
  start-Inv heartbeats w program fresh = record {
    holds = record {
      same_room = refl;
      faulty = fresh.faulty;
      bytes = fresh.empty ∙ sym (clip-nil w.room);
    };
    going = λ _ _. tt;
    shape = inl tt;
    quiet = λ e. cc;
    still = λ e. cc;
  }
