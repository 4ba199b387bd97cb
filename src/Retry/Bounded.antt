-- ===== src/Retry/Bounded.antt =====
-- How often the loop of retry/retry.go calls the operation.
use duh_go.Prelude.{ℕ, zero, suc, ◌+◌, ◌≤◌, ◌≡◌, refl, sym, ap, ◌∙◌, ◌≢◌, arith, Bool, false}
use duh_go.Prelude.{Option, none, some, ℤ, pos, int_ltb, is_zero}
use duh_go.Prelude.{if_intro, ◌&&◌, ◌||◌}
use mathlib.Core.Bool.{not}
use mathlib.Core.Path.{subst}
use duh_go.Errors.{GoError, is_nil, Go}
use duh_go.Retry.{
  Floats, Interval, Policy, World, Outcome, returned, should_retry, exhausted, resume, judge,
  attempt_or_stop, loop, on, start,
}

or_right : (a b : Bool) → (a || b) ≡ false → b ≡ false
or_right a b h = ground arith

module _ {F W : Type 0} (floats : Floats F) (world : World F W) ⦃go : Go⦄ where
  module _ (p : Policy F) (operation : ℕ → W → W × GoError) where
    last_exhausted :
        (n attempt : ℕ)
        → p.attempts ≡ pos (suc n)
        → attempt ≡ suc n
        → exhausted floats world p attempt ≢ false
    unfolding exhausted
    last_exhausted n attempt h k b = exhausted_lem p.attempts h k b
      where
        exhausted_lem :
            (a : ℤ)
            → a ≡ pos (suc n)
            → attempt ≡ suc n
            → (not (is_zero a) && not (int_ltb (pos attempt) a)) ≢ false
        exhausted_lem a h k =
            subst (λ a. (not (is_zero a) && not (int_ltb (pos attempt) a)) ≢ false) (sym h)
              (ground arith)

    -- A run that has returned after at most so many calls of the operation.
    abbrev pub Bounded : (W → ℕ) → ℕ → Outcome W → Type 0
    Bounded calls most o = (w : W) × (e : GoError) × (o ≡ returned w e) × (calls w ≤ most)

    module _ (calls : W → ℕ) (counted : (k : ℕ) (w : W) → calls (operation k w).0 ≡ suc (calls w))
        (waited : (d : ℤ) (w : W) → calls (world.wait d w).0 ≡ calls w) where
      resume-Bounded :
          (again : W → Outcome W) (most : ℕ) (d : ℤ) (before : W) (r : W × Option GoError)
          → world.wait d before ≡ r
          → calls before ≤ most
          → ((w : W) → calls w ≡ calls before → Bounded calls most (again w))
          → Bounded calls most (resume floats world p operation again r)
      unfolding resume
      resume-Bounded again most d before (w, none) h le k =
          k w (ap (λ r. calls r.0) (sym h) ∙ waited d before)
      resume-Bounded again most d before (w, some e) h le k =
          let same : calls w ≡ calls before = ap (λ r. calls r.0) (sym h) ∙ waited d before in
          (w, e, refl, omega arith)

      judge-Bounded :
          (interval : Interval F) (again : W → Outcome W) (most attempt : ℕ) (r : W × GoError)
          → calls r.0 ≤ most
          → (exhausted floats world p attempt ≡ false
              → (w : W) → calls w ≡ calls r.0
              → Bounded calls most (again w))
          → Bounded calls most (judge floats world p operation interval again attempt r)
      unfolding judge
      judge-Bounded interval again most attempt (w, e) le k =
          if_intro (Bounded calls most) (is_nil e || exhausted floats world p attempt)
            (λ _. (w, e, refl, le))
            (λ b.
              if_intro (Bounded calls most) (should_retry e p)
                (λ _. resume-Bounded again most _ w (world.wait _ w) refl le (k (or_right _ _ b)))
                (λ _. (w, e, refl, le)))

      round-Bounded :
          (interval : Interval F) (again : W → Outcome W) (most attempt : ℕ) (w : W)
          (o : Option GoError)
          → suc (calls w) ≤ most
          → (exhausted floats world p attempt ≡ false
              → (w' : W) → calls w' ≡ suc (calls w)
              → Bounded calls most (again w'))
          → Bounded calls most (attempt_or_stop floats world p operation interval again attempt w o)
      unfolding attempt_or_stop
      round-Bounded interval again most attempt w none le k =
          let once : calls (operation attempt w).0 ≡ suc (calls w) = counted attempt w in
          judge-Bounded interval again most attempt (operation attempt w) (omega arith)
            (λ b w' same. k b w' (same ∙ once))
      round-Bounded interval again most attempt w (some e) le k = (w, e, refl, omega arith)

      loop-Bounded :
          (n : ℕ) (interval : Interval F) (fuel attempt : ℕ) (w : W) (most : ℕ)
          → p.attempts ≡ pos (suc n)
          → attempt + fuel ≡ suc n
          → most ≡ calls w + suc fuel
          → Bounded calls most (loop floats world p operation interval (suc fuel) attempt w)
      unfolding loop
      loop-Bounded n interval zero attempt w most h le m =
          round-Bounded interval _ most attempt w (world.done w) (omega arith)
            (λ b _ _. absurd (last_exhausted n attempt h (omega arith) b))
      loop-Bounded n interval (suc fuel) attempt w most h le m =
          round-Bounded interval _ most attempt w (world.done w) (omega arith) (λ b w' same.
            loop-Bounded n interval fuel (suc attempt) w' most h (omega arith) (omega arith))

      start-Bounded :
          (n : ℕ) (i : Option (Interval F)) (interval : Interval F) (w : W)
          → i ≡ some interval
          → p.attempts ≡ pos (suc n)
          → Bounded calls (calls w + suc n) (start floats world p operation i (suc n) w)
      unfolding start
      start-Bounded n none interval w h k = let no : ⊥ = cc in absurd no
      start-Bounded n (some i) interval w h k = loop-Bounded n i n 1 w _ k (omega arith) refl

      -- With an interval and a positive number of attempts, `On` returns, and calls the operation at most so
      -- often, however long the pauses and whatever the errors: `calls` counts the calls.
      pub on-Bounded :
          (n : ℕ) (interval : Interval F) (w : W)
          → p.interval ≡ some interval
          → p.attempts ≡ pos (suc n)
          → Bounded calls (calls w + suc n) (on floats world p operation (suc n) w)
      unfolding on
      on-Bounded n interval w h k = start-Bounded n p.interval interval w h k
