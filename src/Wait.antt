-- ===== src/Wait.antt =====
-- wait.go: `WaitForConnect`.
pub mod Dials
use duh_go.Prelude.{ℕ, zero, suc, List, [], ◌∷◌, ◌++◌}
use duh_go.Prelude.{Option, none, some, Text, str, text_eq, if◌then◌else◌}
use duh_go.Errors.{GoError, nil, plain, is_nil, Go, error_text}

-- What the loop calls: `DialContext`, whose connection it closes at once, `ctx.Err()`, and the
-- sleep of 100 ms.
pub record Network (W : Type 0) : Type 0 where
  pub dial : Text → W → W × GoError
  pub context_error : W → GoError
  pub sleep : W → W

-- `strings.Join(texts, "\n")`
unfoldable pub join_lines : List Text → Text
join_lines [] = []
join_lines (t ∷ []) = t
join_lines (t ∷ u ∷ texts) = t ++ (str "\n" ++ join_lines (u ∷ texts))

module _ {W : Type 0} (net : Network W) ⦃go : Go⦄ (address : Text) where
  -- After a dial that failed, with its error in `errs` and what the context says.
  abbrev pub give_up : (W → Option (W × GoError)) → List Text → W → GoError → Option (W × GoError)
  give_up again errs w e =
      let rest = again (net.sleep w) in
      if is_nil e then rest else some (w, plain (join_lines (errs ++ error_text e ∷ [])))

  -- After a dial.
  abbrev pub dialed :
      (List Text → W → Option (W × GoError)) → List Text → W × GoError → Option (W × GoError)
  dialed again errs (w, e) =
      let errs' = errs ++ error_text e ∷ [] in
      let rest = give_up (again errs') errs' w (net.context_error w) in
      if is_nil e then some (w, nil) else rest

  unfoldable pub wait_loop : ℕ → List Text → W → Option (W × GoError)
  wait_loop zero errs w = none
  wait_loop (suc fuel) errs w = dialed (wait_loop fuel) errs (net.dial address w)

  -- `WaitForConnect`, for as many rounds as `fuel`.
  unfoldable pub wait_for_connect : ℕ → W → Option (W × GoError)
  wait_for_connect fuel w =
      if text_eq address []
      then some (w, plain (str "WaitForConnect() requires a valid address"))
      else wait_loop fuel [] w
