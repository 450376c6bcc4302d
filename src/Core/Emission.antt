-- ===== src/Core/Emission.antt =====
-- crates/core/src/emission.rs: the block subsidy in Q96 fixed point. A U256 is a plain number.
use Prim.Native.Nat.{bit_and}
use summerpoem_cli.Prelude.{
  ℕ, ◌-◌, ◌*◌, ◌/◌, ◌%◌, ◌^◌, ◌<◌, ◌==◌, if◌then◌else◌, arith, lt_wf, dec_lt,
}
use mathlib.Core.Logic.{dite}
use mathlib.Core.WellFounded.{Acc}
pub mod Power
pub mod Supply

abbrev pub coin : ℕ
coin = 100_000_000

abbrev pub supply_cap : ℕ
supply_cap = 42_000_000 * coin

abbrev pub decay_m : ℕ
decay_m = 3_033_415

-- `1 << 96`
abbrev pub one_q96 : ℕ
one_q96 = 2 ^ 96

unfoldable pub base_q96 : ℕ
base_q96 = (decay_m - 1) * one_q96 / decay_m

halves : (e : ℕ) → 0 < e → e / 2 < e
halves e h = omega arith

-- The loop of `pow_q96` over its variables `acc`, `base` and `e`.
pow_loop : (acc base e : ℕ) → Acc ◌<◌ e → ℕ
pow_loop acc base e (Acc.intro _ smaller) =
    dite (dec_lt 0 e)
      (λ more.
        pow_loop (if e % 2 == 1 then acc * base / one_q96 else acc) (base * base / one_q96) (e / 2)
          (smaller _ (halves e more)))
      (λ _. acc)

unfoldable pub pow_q96 : ℕ → ℕ → ℕ
unfolding pow_loop halves lt_wf dec_lt
pow_q96 base e = pow_loop one_q96 base e (lt_wf.apply e)

-- `as_u64` panics above 64 bits; the reward is far below.
unfoldable pub block_reward : ℕ → ℕ
block_reward height = (supply_cap / decay_m) * pow_q96 base_q96 height / one_q96
