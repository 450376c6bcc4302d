-- ===== src/Core/Asert.antt =====
-- crates/core/src/asert.rs: the difficulty adjustment. An i128 is an integer of the model: the
-- products stay below 2 ^ 127 for u64 inputs of the sizes that occur. A U512 is a plain number.
use summerpoem_cli.Prelude.{ℕ, ◌+◌, ◌-◌, ◌*◌, ◌/◌, ◌%◌, ◌^◌, ◌≤◌, ltb, leb, ◌==◌, if◌then◌else◌}
use summerpoem_cli.Prelude.Int.{ℤ, pos, negsuc, pos_part, ◌-ℤ◌, scale, quotient, floor_div}
use summerpoem_cli.Core.Compact.{bit_length}
pub mod Bounds

-- `u512_to_u256_saturating`: a value up to the limit fits the low 32 bytes.
unfoldable pub saturating : ℕ → ℕ → ℕ
saturating v limit = if ltb limit v then limit else v

-- The exponent in Q16, and its split into whole and fractional part.
unfoldable pub exponent : ℕ → ℕ → ℤ → ℕ → ℤ
exponent ideal_interval tau time_diff height_diff =
    quotient (scale (time_diff -ℤ pos (ideal_interval * (height_diff + 1))) (2 ^ 16)) tau

unfoldable pub fraction : ℤ → ℕ
fraction e = pos_part (e -ℤ scale (floor_div e (2 ^ 16)) (2 ^ 16))

-- 2 ^ (frac / 65536) in Q16, by the cubic approximation.
unfoldable pub factor : ℕ → ℕ
factor frac =
    65536
    + (195_766_423_245_049 * frac + 971_821_376 * frac * frac + 5_127 * frac * frac * frac + 2 ^ 47)
      / 2 ^ 48
      % 2 ^ 64

-- The last lines: a zero target becomes one, and any other is cut at the limit.
unfoldable pub settle : ℕ → ℕ → ℕ
settle target pow_limit = if target == 0 then 1 else saturating target pow_limit

-- `shifts.clamp(-256, 256)` and the shift by it; `none` is the early return of the limit.
unfoldable pub shift_target : ℕ → ℤ → ℕ → ℕ
shift_target target (negsuc n) pow_limit =
    let down = if ltb 256 (n + 1) then 256 else n + 1 in settle (target / 2 ^ down) pow_limit
shift_target target (pos n) pow_limit =
    let up = if ltb 256 n then 256 else n in
    if ltb 0 up
    then (if leb 512 (bit_length target + up)
        then pow_limit
        else settle (target * 2 ^ up) pow_limit)
    else settle target pow_limit

unfoldable pub next_target : ℕ → ℕ → ℕ → ℤ → ℕ → ℕ → ℕ
next_target anchor_target ideal_interval tau time_diff height_diff pow_limit =
    let e = exponent ideal_interval tau time_diff height_diff in
    shift_target (anchor_target * factor (fraction e) / 2 ^ 16) (floor_div e (2 ^ 16)) pow_limit
