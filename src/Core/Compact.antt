-- ===== src/Core/Compact.antt =====
-- crates/core/src/compact.rs: the compact "nBits" form of a difficulty target. Masks and shifts
-- on words are written as division and remainder; a U256 is a plain number below 2 ^ 256.
use summerpoem_cli.Prelude.{
  ℕ, suc, ◌+◌, ◌-◌, ◌*◌, ◌/◌, ◌%◌, ◌^◌, ◌<◌, Option, none, some, ◌==◌, ltb, leb, not, ◌||◌,
  if◌then◌else◌, arith, lt_wf, dec_lt,
}
use mathlib.Core.Logic.{dite}
use mathlib.Core.WellFounded.{Acc}

-- The target, where its bits are well formed: a zero target is refused too.
unfoldable pub nonzero : ℕ → Option ℕ
nonzero t = if t == 0 then none else some t

unfoldable pub bits_to_target : ℕ → Option ℕ
bits_to_target bits =
    let exp = bits / 2 ^ 24 in
    let mant = bits % 2 ^ 23 in
    if not (bits / 2 ^ 23 % 2 == 0) || mant == 0 || ltb 34 exp
    then none
    else if leb exp 3
    then nonzero (mant / 2 ^ (8 * (3 - exp)))
    else if ltb 232 (8 * (exp - 3))
    then none
    else nonzero (mant * 2 ^ (8 * (exp - 3)))

halves : (n : ℕ) → 0 < n → n / 2 < n
halves n h = omega arith

bits_acc : (n : ℕ) → Acc ◌<◌ n → ℕ
bits_acc n (Acc.intro _ smaller) =
    dite (dec_lt 0 n) (λ h. suc (bits_acc (n / 2) (smaller _ (halves n h)))) (λ _. 0)

-- `U256::bits`: the position of the highest one bit, from 1.
unfoldable pub bit_length : ℕ → ℕ
unfolding bits_acc halves lt_wf dec_lt
bit_length n = bits_acc n (lt_wf.apply n)

-- The mantissa is shifted right where its sign bit is set, and packed under the size. It is below
-- 2 ^ 24, so the final `|` adds.
unfoldable pub pack : ℕ → ℕ → ℕ
pack compact size =
    if compact / 2 ^ 23 % 2 == 0
    then compact + size * 2 ^ 24 % 2 ^ 32
    else compact / 2 ^ 8 + (size + 1) * 2 ^ 24 % 2 ^ 32

unfoldable pub target_to_bits : ℕ → ℕ
target_to_bits target =
    let size = (bit_length target + 7) / 8 in
    if leb size 3
    then pack (target % 2 ^ 64 % 2 ^ 32 * 2 ^ (8 * (3 - size)) % 2 ^ 32) size
    else pack (target / 2 ^ (8 * (size - 3)) % 2 ^ 64 % 2 ^ 32) size
