-- ===== src/Launch/Graceful.antt =====
-- How the demo's server of cmd/demo/main.go ends.
use duh_go.Prelude.{List, Bool, false, [], ◌∷◌, Option, none, some, ◌≡◌, refl, ap, ◌∙◌}
use duh_go.Prelude.{if_intro, ◌&&◌, All}
use mathlib.Core.Bool.{not}
use duh_go.Errors.{GoError, is_nil}
use duh_go.Launch.{
  Process, Happening, Ending, completed, exited, refused_flags, signal, received, listened,
  shut_down, listen_ending, happen, unless_ended, live, Flags, parsed, refused, launch,
}

-- The process ends because `main` returns.
abbrev pub IsCompleted : Option Ending → Type 0
IsCompleted none = ⊥
IsCompleted (some completed) = Unit
IsCompleted (some (exited format e)) = ⊥
IsCompleted (some (refused_flags status)) = ⊥

abbrev pub IsOther : Happening → Type 0
IsOther signal = ⊥
IsOther received = Unit
IsOther (listened e) = Unit
IsOther (shut_down e) = Unit

-- Nobody has asked the process to stop, and `main` has not returned.
record IsQuiet (p : Process) : Type 0 where
  pending : p.pending ≡ false
  shutting_down : p.shutting_down ≡ false
  unfinished : ¬ IsCompleted p.ending

module _ (is_closed : GoError → Bool) where
  -- An end is final.
  pub live_ended :
      (events : List Happening) (p : Process) (ending : Ending)
      → p.ending ≡ some ending
      → live is_closed events p ≡ p
  unfolding live unless_ended
  live_ended [] p ending h = refl
  live_ended (event ∷ events) p ending h =
      ap (λ o. live is_closed events (unless_ended is_closed o event p)) h
      ∙ live_ended events p ending h

  listen_unfinished : (e : GoError) → ¬ IsCompleted (listen_ending is_closed e)
  listen_unfinished e =
      if_intro (λ o. ¬ IsCompleted o) (not (is_nil e) && not (is_closed e)) (λ _ s. s) (λ _ s. s)

  happen-IsQuiet :
      (event : Happening) (p : Process)
      → IsOther event
      → IsQuiet p
      → IsQuiet (happen is_closed event p)
  unfolding happen
  happen-IsQuiet signal p o q = absurd o
  happen-IsQuiet received p o q =
      if_intro IsQuiet (p.pending && not p.shutting_down)
        (λ h. let k = q.pending in let no : ⊥ = cc in absurd no) (λ _. q)
  happen-IsQuiet (listened e) p o q =
      if_intro IsQuiet p.listening
        (λ _. record {
          pending = q.pending;
          shutting_down = q.shutting_down;
          unfinished = listen_unfinished e;
        })
        (λ _. q)
  happen-IsQuiet (shut_down e) p o q =
      if_intro IsQuiet p.shutting_down
        (λ h. let k = q.shutting_down in let no : ⊥ = cc in absurd no) (λ _. q)

  unless_ended-IsQuiet :
      (ending : Option Ending) (event : Happening) (p : Process)
      → IsOther event
      → IsQuiet p
      → IsQuiet (unless_ended is_closed ending event p)
  unfolding unless_ended
  unless_ended-IsQuiet none event p o q = happen-IsQuiet event p o q
  unless_ended-IsQuiet (some ending) event p o q = q

  live-IsQuiet :
      (events : List Happening) (p : Process)
      → All IsOther events
      → IsQuiet p
      → IsQuiet (live is_closed events p)
  unfolding live
  live-IsQuiet [] p all q = q
  live-IsQuiet (event ∷ events) p (o, all) q =
      live-IsQuiet events (unless_ended is_closed p.ending event p) all
        (unless_ended-IsQuiet p.ending event p o q)

  launch-IsQuiet : (flags : Flags) → IsQuiet (launch flags)
  unfolding launch
  launch-IsQuiet (parsed c) = record { pending = refl; shutting_down = refl; unfinished = λ s. s }
  launch-IsQuiet (refused n) = record { pending = refl; shutting_down = refl; unfinished = λ s. s }

  -- Without a signal `main` does not return, whatever else happens.
  pub launch_unfinished :
      (flags : Flags) (events : List Happening)
      → All IsOther events
      → ¬ IsCompleted (live is_closed events (launch flags)).ending
  launch_unfinished flags events all =
      (live-IsQuiet events (launch flags) all (launch-IsQuiet flags)).unfinished
