-- ===== src/Errors/Size/Bounds.antt =====
-- What the loop of `bytesToSI` ends with.
use duh_go.Prelude.{
  ℕ, zero, suc, ◌+◌, ◌*◌, ◌/◌, ◌%◌, ◌^◌, ◌≤◌, ◌<◌, ◌≡◌, sym, ap, ◌∙◌, arith, leb, ◌==◌, if_intro,
}
use native.Mathlib.Nat.{
  pow-le-pow_left, pow-le-pow_right, pow-suc, pow-zero, mul-pos, div-div-eq-div-mul,
  le-div_iff_mul-le, div-lt_iff_lt-mul,
}
use mathlib.Core.Path.{subst}
use duh_go.Errors.Size.{unit_of, scale_loop, scale, kibibyte}

-- A unit's power that a size has: at least one and less than 1000 or 1024 of them are in it, and
-- there is a letter for it.
pub record IsScale (unit b : ℕ) (found : ℕ × ℕ) : Type 0 where
  pub power : found.0 ≡ unit ^ (found.1 + 1)
  pub lower : found.0 ≤ b
  pub upper : b < unit * found.0
  pub lettered : found.1 ≤ 5

-- No power of a unit above the sixth is an int64.
power_bound : (unit exp b : ℕ) → 1000 ≤ unit → unit ^ (exp + 1) ≤ b → b < 2 ^ 63 → exp ≤ 5
power_bound unit exp b u l w =
    if_intro (λ (n : ℕ). exp ≤ 5) (leb exp 5) {x = 0} {y = 0} (λ h. ground arith)
      (λ h.
        let few = pow-le-pow_left u (exp + 1) in
        let many : 1000 ^ 7 ≤ 1000 ^ (exp + 1) =
          pow-le-pow_right (omega arith) {i = 7} {j = exp + 1} (ground arith) in
        absurd (omega (arith, few, many)))

scale_loop-IsScale :
    (fuel unit b div exp : ℕ)
    → 1000 ≤ unit
    → b < 2 ^ 63
    → div ≡ unit ^ (exp + 1)
    → 1 ≤ div
    → div ≤ b
    → 6 ≤ fuel + exp
    → IsScale unit b (scale_loop fuel unit (b / div) div exp)
unfolding scale_loop
scale_loop-IsScale zero unit b div exp u w p o l f =
    let no = power_bound unit exp b u (omega (arith, p)) w in absurd (omega arith)
scale_loop-IsScale (suc fuel) unit b div exp u w p o l f =
    if_intro (IsScale unit b) (leb unit (b / div))
      (λ h.
        let big : unit ≤ b / div = ground arith in
        subst (λ n. IsScale unit b (scale_loop fuel unit n (div * unit) (exp + 1)))
          (sym (div-div-eq-div-mul b div unit))
          (scale_loop-IsScale fuel unit b (div * unit) (exp + 1) u w
            (ap (λ d. d * unit) p
              ∙ (sym (pow-suc unit (exp + 1)) ∙ ap (λ k. unit ^ k) (omega arith)))
            (mul-pos o (omega arith)) (omega (arith, (le-div_iff_mul-le o).0 big)) (omega arith)))
      (λ h. record {
        power = p;
        lower = l;
        upper = (div-lt_iff_lt-mul o).0 (ground arith);
        lettered = power_bound unit exp b u (omega (arith, p)) w;
      })

unit_of_bounds : (b : ℕ) → (1000 ≤ unit_of b) × (unit_of b ≤ 1024)
unfolding unit_of
unit_of_bounds b =
    if_intro (λ u. (1000 ≤ u) × (u ≤ 1024)) (b % kibibyte == 0) (λ h. (omega arith, omega arith))
      (λ h. (omega arith, omega arith))

-- For an int64 of at least one unit, the loop of `bytesToSI` ends within its rounds, with the largest
-- power of the unit that the size has, for which there is one of the six letters; the power is not
-- above the size, so the int64 it is computed in does not wrap.
pub scale-IsScale : (b : ℕ) → unit_of b ≤ b → b < 2 ^ 63 → IsScale (unit_of b) b (scale b)
unfolding scale
scale-IsScale b l w =
    let (low, high) = unit_of_bounds b in
    scale_loop-IsScale 64 (unit_of b) b (unit_of b) 0 low w
      (sym (pow-suc (unit_of b) 0 ∙ (ap (λ k. k * unit_of b) (pow-zero (unit_of b)) ∙ omega arith)))
      (omega arith) l (omega arith)
