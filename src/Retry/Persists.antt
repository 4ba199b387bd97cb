-- ===== src/Retry/Persists.antt =====
-- The loop of retry/retry.go goes on until the operation succeeds.
use duh_go.Prelude.{ℕ, zero, suc, ◌+◌, ◌≤◌, ◌≡◌, refl, arith, true, false, Option, none, some}
use duh_go.Prelude.{ℤ}
use mathlib.Core.Path.{subst}
use duh_go.Errors.{GoError, nil, is_nil, Go}
use duh_go.Retry.{
  Floats, Interval, Policy, World, Outcome, returned, should_retry, exhausted, resume, judge,
  attempt_or_stop, loop, on, start,
}

module _ {F W : Type 0} (floats : Floats F) (world : World F W) ⦃go : Go⦄ (p : Policy F)
    (operation : ℕ → W → W × GoError) where
  -- An error after an attempt that the policy answers with another.
  pub record Retried (attempt : ℕ) (e : GoError) : Type 0 where
    pub failed : is_nil e ≡ false
    pub allowed : exhausted floats world p attempt ≡ false
    pub retried : should_retry e p ≡ true

  -- The first attempts, as many as `failures`, are answered with another, and the next succeeds. The
  -- context is never done.
  pub record Recovers (failures : ℕ) : Type 0 where
    pub running : (w : W) → world.done w ≡ none
    pub uninterrupted : (d : ℤ) (w : W) → (world.wait d w).1 ≡ none
    pub fails :
        (attempt : ℕ) (w : W)
        → 1 ≤ attempt
        → attempt ≤ failures
        → Retried attempt (operation attempt w).1
    pub succeeds : (w : W) → (operation (suc failures) w).1 ≡ nil

  abbrev Succeeds : Outcome W → Type 0
  Succeeds o = (w : W) × (o ≡ returned w nil)

  judge_success :
      (interval : Interval F) (again : W → Outcome W) (attempt : ℕ) (r : W × GoError)
      → r.1 ≡ nil
      → Succeeds (judge floats world p operation interval again attempt r)
  unfolding judge
  judge_success interval again attempt (w, e) h = (w, rw h refl)

  resume_uninterrupted :
      (again : W → Outcome W) (r : W × Option GoError)
      → r.1 ≡ none
      → ((w : W) → Succeeds (again w))
      → Succeeds (resume floats world p operation again r)
  unfolding resume
  resume_uninterrupted again (w, none) h k = k w
  resume_uninterrupted again (w, some e) h k = let no : ⊥ = cc in absurd no

  judge-Retried :
      (interval : Interval F) (again : W → Outcome W) (attempt : ℕ) (r : W × GoError)
      → ((d : ℤ) (w : W) → (world.wait d w).1 ≡ none)
      → Retried attempt r.1
      → ((w : W) → Succeeds (again w))
      → Succeeds (judge floats world p operation interval again attempt r)
  unfolding judge
  judge-Retried interval again attempt (w, e) u h k =
      rw (h.failed, h.allowed, h.retried) (resume_uninterrupted again (world.wait _ w) (u _ w) k)

  round_running :
      (interval : Interval F) (again : W → Outcome W) (attempt : ℕ) (w : W) (o : Option GoError)
      → o ≡ none
      → Succeeds (judge floats world p operation interval again attempt (operation attempt w))
      → Succeeds (attempt_or_stop floats world p operation interval again attempt w o)
  unfolding attempt_or_stop
  round_running interval again attempt w none h k = k
  round_running interval again attempt w (some e) h k = let no : ⊥ = cc in absurd no

  loop-Recovers :
      (failures : ℕ) (interval : Interval F) (more attempt : ℕ) (w : W)
      → Recovers failures
      → 1 ≤ attempt
      → attempt + more ≡ suc failures
      → Succeeds (loop floats world p operation interval (suc more) attempt w)
  unfolding loop
  loop-Recovers failures interval zero attempt w r le h =
      let same : suc failures ≡ attempt = omega arith in
      round_running interval _ attempt w (world.done w) (r.running w) (
        judge_success interval _ attempt (operation attempt w)
          (subst (λ n. (operation n w).1 ≡ nil) same (r.succeeds w)))
  loop-Recovers failures interval (suc more) attempt w r le h =
      round_running interval _ attempt w (world.done w) (r.running w) (
        judge-Retried interval _ attempt (operation attempt w) r.uninterrupted
          (r.fails attempt w le (omega arith))
          (λ w'.
            loop-Recovers failures interval more (suc attempt) w' r (omega arith) (omega arith)))

  start-Recovers :
      (failures : ℕ) (i : Option (Interval F)) (interval : Interval F) (w : W)
      → i ≡ some interval
      → Recovers failures
      → Succeeds (start floats world p operation i (suc failures) w)
  unfolding start
  start-Recovers failures none interval w h r = let no : ⊥ = cc in absurd no
  start-Recovers failures (some i) interval w h r =
      loop-Recovers failures i failures 1 w r (omega arith) (omega arith)

  -- With an interval, and a context that is never done: where the operation fails some times, each
  -- time with an error that the policy answers with another attempt, and then succeeds, `On` returns
  -- nil, in as many rounds as there are attempts, also under a policy without a last attempt.
  pub on-Recovers :
      (failures : ℕ) (interval : Interval F) (w : W)
      → p.interval ≡ some interval
      → Recovers failures
      → (w' : W) × (on floats world p operation (suc failures) w ≡ returned w' nil)
  unfolding on
  on-Recovers failures interval w h r = start-Recovers failures p.interval interval w h r
