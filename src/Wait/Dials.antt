-- ===== src/Wait/Dials.antt =====
-- What `WaitForConnect` returns, by the dials that it makes.
use duh_go.Prelude.{
  arith, ℕ, suc, ◌+◌, ◌≡◌, sym, ap, ◌∙◌, true, false, List, [], ◌∷◌, ◌++◌, length, some, Text,
  text_eq,
}
use mathlib.Core.List.{append_assoc, append-nil, map}
use duh_go.Errors.{GoError, nil, plain, is_nil, Go, error_text}
use duh_go.Errors.Maps.{if_true, if_false}
use duh_go.Wait.{Network, join_lines, dialed, wait_loop, wait_for_connect}

module _ {W : Type 0} (net : Network W) ⦃go : Go⦄ (address : Text) where
  -- The network from `w` on: dials that fail with these errors while the context goes on, each with a
  -- sleep behind it, up to `w'`.
  pub data Failing (w' : W) : List GoError → W → Type 0 where
    now : Failing w' [] w'
    later :
        {w v : W} {e : GoError} {es : List GoError}
        → net.dial address w ≡ (v, e)
        → is_nil e ≡ false
        → is_nil (net.context_error v) ≡ true
        → Failing w' es (net.sleep v)
        → Failing w' (e ∷ es) w

  -- The loop after the dials that fail, with their errors kept.
  wait_loop-Failing :
      {w' w : W} {es : List GoError} (fuel : ℕ) (errs : List Text)
      → Failing w' es w
      → wait_loop net address (length es + fuel) errs w
        ≡ wait_loop net address fuel (errs ++ map error_text es) w'
  unfolding wait_loop
  wait_loop-Failing {w' = w'} fuel errs now =
      ap (λ n. wait_loop net address n errs w') {y = fuel} (omega arith)
      ∙ ap (λ errs. wait_loop net address fuel errs w') (sym (append-nil errs))
  wait_loop-Failing {w' = w'} {w = w} {es = e ∷ es} fuel errs (later {v = v} d n c rest) =
      let again = wait_loop net address (length es + fuel) in
      let errs' = errs ++ error_text e ∷ [] in
      ap (λ k. wait_loop net address k errs w) {y = suc (length es + fuel)} (omega arith)
      ∙ (ap (dialed net address again errs) d
          ∙ (if_false _ (is_nil e) n
              ∙ (if_true _ (is_nil (net.context_error v)) c
                  ∙ (wait_loop-Failing fuel errs' rest
                      ∙ ap (λ errs. wait_loop net address fuel errs w')
                          (append_assoc errs (error_text e ∷ []) (map error_text es))))))

  -- How the dial ends that follows them: with a connection, or with an error in a context that has
  -- ended.
  pub data Ending (w' : W) : W → List GoError → Type 0 where
    connected : {v : W} → net.dial address w' ≡ (v, nil) → Ending w' v []
    given_up :
        {v : W} {e : GoError}
        → net.dial address w' ≡ (v, e)
        → is_nil e ≡ false
        → is_nil (net.context_error v) ≡ false
        → Ending w' v (e ∷ net.context_error v ∷ [])

  -- Nil for a connection, or the errors of every dial and of the context, a line each.
  abbrev pub settled : List GoError → List GoError → GoError
  settled es [] = nil
  settled es (e ∷ last) = plain (join_lines (map error_text es ++ map error_text (e ∷ last)))

  -- Where some dials fail and the next one ends the wait, `WaitForConnect` returns nil if that one
  -- connects, and otherwise the errors of all dials in order, and of the context behind them. The
  -- address must not be empty, and one round for each dial is enough.
  pub wait_for_connect-settled :
      (w w' v : W) (es last : List GoError) (k : ℕ)
      → text_eq address [] ≡ false
      → Failing w' es w
      → Ending w' v last
      → wait_for_connect net address (length es + suc k) w ≡ some (v, settled es last)
  unfolding wait_for_connect wait_loop
  wait_for_connect-settled w w' v es last k h f (connected d) =
      if_false _ (text_eq address []) h
      ∙ (wait_loop-Failing (suc k) [] f
          ∙ ap (dialed net address (wait_loop net address k) (map error_text es)) d)
  wait_for_connect-settled w w' v es last k h f (given_up {e = e} d n c) =
      let again = wait_loop net address k in
      if_false _ (text_eq address []) h
      ∙ (wait_loop-Failing (suc k) [] f
          ∙ (ap (dialed net address again (map error_text es)) d
              ∙ (if_false _ (is_nil e) n
                  ∙ (if_false _ (is_nil (net.context_error v)) c
                      ∙ ap (λ t. some (v, plain (join_lines t)))
                          (append_assoc (map error_text es) (error_text e ∷ [])
                            (error_text (net.context_error v) ∷ []))))))
