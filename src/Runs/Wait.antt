-- ===== src/Runs/Wait.antt =====
-- The wait for a connection at a concrete network.
use duh_go.Prelude.{suc, ◌+◌, List, [], ◌∷◌, ◌≡◌, refl, length, some, str, text_eq}
use duh_go.Errors.{GoError, nil, sentinel, canceled}
use duh_go.Wait.{Network, wait_for_connect}
use duh_go.Wait.Dials.{Failing, Ending, settled, wait_for_connect-settled}
use duh_go.Samples.{sample_go, broken}

-- A network by the errors of its next dials; the context ends with them.
abbrev sample_network : Network (List GoError)
sample_network = record {
  dial = λ address w. elim w [ [] ↦ ([], nil) | e ∷ w ↦ (w, e) ];
  context_error = λ w. elim w [ [] ↦ sentinel canceled | e ∷ w ↦ nil ];
  sleep = λ w. w;
}

wait_for_connect-settled_example :
    wait_for_connect sample_network
      (str "a:1")
      (length (broken ∷ []) + suc 3)
      (broken ∷ broken ∷ [])
    ≡ some ([], settled sample_network (str "a:1") (broken ∷ []) (broken ∷ sentinel canceled ∷ []))
unfolding text_eq
wait_for_connect-settled_example =
    wait_for_connect-settled sample_network (str "a:1") (broken ∷ broken ∷ []) (broken ∷ []) []
      (broken ∷ []) (broken ∷ sentinel canceled ∷ []) 3 refl
      (Failing.later refl refl refl Failing.now) (Ending.given_up refl refl refl)
