-- ===== src/Core/Asert/Bounds.antt =====
-- The range of the next target.
use summerpoem_cli.Prelude.{ℕ, ◌*◌, ◌/◌, ◌^◌, ◌≤◌, ◌<◌, arith}
use native.Mathlib.Nat.{mul-le-mul}
use summerpoem_cli.Prelude.Int.{ℤ, pos, negsuc, ◌-ℤ◌, scale, floor_div}
use summerpoem_cli.Core.Asert.{
  saturating, settle, shift_target, next_target, factor, fraction, exponent,
}

settle_bounds : (t limit : ℕ) → 1 ≤ limit → (1 ≤ settle t limit) × (settle t limit ≤ limit)
unfolding settle saturating
settle_bounds t limit h = ground arith

shift_target_bounds :
    (t : ℕ) (shifts : ℤ) (limit : ℕ)
    → 1 ≤ limit
    → (1 ≤ shift_target t shifts limit) × (shift_target t shifts limit ≤ limit)
unfolding shift_target
shift_target_bounds t (pos n) limit h = grind (arith, settle_bounds)
shift_target_bounds t (negsuc n) limit h = grind (arith, settle_bounds)

-- Whatever the block times, the next target is at least 1 and at most the limit, if the limit is
-- at least 1.
pub next_target_bounds :
    (anchor interval tau : ℕ) (time_diff : ℤ) (height limit : ℕ)
    → 1 ≤ limit
    → (1 ≤ next_target anchor interval tau time_diff height limit)
      × (next_target anchor interval tau time_diff height limit ≤ limit)
unfolding next_target
next_target_bounds anchor interval tau time_diff height limit h =
    shift_target_bounds
      (anchor * factor (fraction (exponent interval tau time_diff height)) / 2 ^ 16)
      (floor_div (exponent interval tau time_diff height) (2 ^ 16)) limit h

fraction-lt : (e : ℤ) → fraction e < 65536
unfolding fraction floor_div scale ◌-ℤ◌
fraction-lt (pos n) = ground arith
fraction-lt (negsuc n) = ground arith

-- The factor of a fraction below 1, in Q16, lies between 1 and 2.
pub factor_bounds : (frac : ℕ) → frac < 65536 → (65536 ≤ factor frac) × (factor frac ≤ 131072)
unfolding factor
factor_bounds frac h =
    let le : frac ≤ 65535 = omega arith in
    let square : frac * frac ≤ 65535 * 65535 = mul-le-mul le le in
    let cube : frac * frac * frac ≤ 65535 * 65535 * 65535 = mul-le-mul square le in omega arith
