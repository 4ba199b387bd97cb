-- ===== src/Retry/Laws.antt =====
-- Theorems about the pauses of retry/retry.go.
use duh_go.Prelude.{ℕ, ◌≡◌, arith, false}
use duh_go.Prelude.{ℤ, pos, negsuc, int_ltb, ◌≤ℤ◌}
use duh_go.Prelude.{if_intro}
use duh_go.Errors.{Go}
use duh_go.Retry.{Floats, BackOff, World, clamp, back_off_next}

int_ltb-≤ℤ : (a b : ℤ) → int_ltb a b ≡ false → b ≤ℤ a
int_ltb-≤ℤ (pos a) (pos b) h = ground arith
int_ltb-≤ℤ (pos a) (negsuc b) h = ground arith
int_ltb-≤ℤ (negsuc a) (pos b) h = ground arith
int_ltb-≤ℤ (negsuc a) (negsuc b) h = ground arith

≤ℤ_refl : (a : ℤ) → a ≤ℤ a
≤ℤ_refl a = omega arith

clamp_bounds : (min max d : ℤ) → min ≤ℤ max → (min ≤ℤ clamp min max d) × (clamp min max d ≤ℤ max)
unfolding clamp
clamp_bounds min max d h =
    if_intro (λ x. (min ≤ℤ x) × (x ≤ℤ max)) (int_ltb max d) (λ _. (h, ≤ℤ_refl max))
      (λ above.
        if_intro (λ x. (min ≤ℤ x) × (x ≤ℤ max)) (int_ltb d min) (λ _. (≤ℤ_refl min, h))
          (λ below. (int_ltb-≤ℤ d min below, int_ltb-≤ℤ max d above)))

module _ {F W : Type 0} (floats : Floats F) (world : World F W) ⦃go : Go⦄ where
  -- Whatever float64 does, a pause of a BackOff whose Min is at most its Max is between the two.
  back_off_next_bounds :
      (b : BackOff F) (r : F) (attempts : ℕ)
      → b.min ≤ℤ b.max
      → (b.min ≤ℤ back_off_next floats world b r attempts)
        × (back_off_next floats world b r attempts ≤ℤ b.max)
  unfolding back_off_next
  back_off_next_bounds b r attempts h = clamp_bounds b.min b.max _ h
