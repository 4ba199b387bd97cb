-- ===== src/Retry/Reason.antt =====
-- Why the loop of retry/retry.go returns.
use duh_go.Prelude.{ℕ, zero, suc, ◌≤◌, ◌≡◌, refl, ap, ◌∙◌, arith, true}
use duh_go.Prelude.{Option, none, some, ℤ}
use duh_go.Prelude.{if_intro, ◌||◌}
use mathlib.Core.Bool.{not}
use mathlib.Core.Path.{transport}
use duh_go.Errors.{GoError, is_nil, Go}
use duh_go.Retry.{
  Floats, Interval, Policy, World, Outcome, returned, should_retry, exhausted, resume, judge,
  attempt_or_stop, loop, on, start,
}

module _ {F W : Type 0} (floats : Floats F) (world : World F W) ⦃go : Go⦄ where
  module _ (p : Policy F) (operation : ℕ → W → W × GoError) where
    -- Why `On` has returned an error, or nil, in a world.
    pub data Reason (w : W) (e : GoError) : Type 0 where
      -- The operation gave it, and no further attempt was due.
      attempted :
          (attempt : ℕ) (before : W)
          → 1 ≤ attempt
          → operation attempt before ≡ (w, e)
          → (is_nil e || exhausted floats world p attempt || not (should_retry e p)) ≡ true
          → Reason w e
      -- The context was done at the start of a round, or during a pause.
      done : world.done w ≡ some e → Reason w e
      interrupted : (d : ℤ) (before : W) → world.wait d before ≡ (w, some e) → Reason w e

    abbrev Explained : Outcome W → Type 0
    Explained (returned w e) = Reason w e
    Explained o = Unit

    resume-Explained :
        (again : W → Outcome W) (d : ℤ) (before : W) (r : W × Option GoError)
        → world.wait d before ≡ r
        → ((w : W) → Explained (again w))
        → Explained (resume floats world p operation again r)
    unfolding resume
    resume-Explained again d before (w, none) h k = k w
    resume-Explained again d before (w, some e) h k = interrupted d before h

    judge-Explained :
        (interval : Interval F) (again : W → Outcome W) (attempt : ℕ) (before : W) (r : W × GoError)
        → 1 ≤ attempt
        → operation attempt before ≡ r
        → ((w : W) → Explained (again w))
        → Explained (judge floats world p operation interval again attempt r)
    unfolding judge
    judge-Explained interval again attempt before (w, e) le h k =
        if_intro Explained (is_nil e || exhausted floats world p attempt)
          (λ b. attempted attempt before le h (ap (λ x. x || not (should_retry e p)) b))
          (λ b.
            if_intro Explained (should_retry e p)
              (λ _. resume-Explained again _ w (world.wait _ w) refl k)
              (λ c.
                attempted attempt before le h (ap (λ x. x || not (should_retry e p)) b ∙ ap not c)))

    round-Explained :
        (interval : Interval F) (again : W → Outcome W) (attempt : ℕ) (w : W) (o : Option GoError)
        → 1 ≤ attempt
        → world.done w ≡ o
        → ((w : W) → Explained (again w))
        → Explained (attempt_or_stop floats world p operation interval again attempt w o)
    unfolding attempt_or_stop
    round-Explained interval again attempt w none le h k =
        judge-Explained interval again attempt w (operation attempt w) le refl k
    round-Explained interval again attempt w (some e) le h k = done h

    loop-Explained :
        (interval : Interval F) (fuel attempt : ℕ) (w : W)
        → 1 ≤ attempt
        → Explained (loop floats world p operation interval fuel attempt w)
    unfolding loop
    loop-Explained interval zero attempt w le = tt
    loop-Explained interval (suc fuel) attempt w le =
        round-Explained interval _ attempt w (world.done w) le refl
          (λ w'. loop-Explained interval fuel (suc attempt) w' (omega arith))

    start-Explained :
        (i : Option (Interval F)) (fuel : ℕ) (w : W)
        → Explained (start floats world p operation i fuel w)
    unfolding start
    start-Explained none fuel w = tt
    start-Explained (some interval) fuel w = loop-Explained interval fuel 1 w (omega arith)

    -- Whatever `On` returns has a reason: it is what an attempt returned, and it is nil, the last
    -- that the policy allows or an error that the policy does not retry; or it is the context's.
    pub on-Reason :
        (fuel : ℕ) (w w' : W) (e : GoError)
        → on floats world p operation fuel w ≡ returned w' e
        → Reason w' e
    unfolding on
    on-Reason fuel w w' e h = transport (ap Explained h) (start-Explained p.interval fuel w)
