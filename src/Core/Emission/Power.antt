-- ===== src/Core/Emission/Power.antt =====
-- The fixed-point power against the exact one.
use summerpoem_cli.Prelude.{
  ℕ, zero, suc, ◌+◌, ◌*◌, ◌/◌, ◌%◌, ◌^◌, ◌≤◌, ◌<◌, ◌≡◌, ◌≢◌, sym, arith, dec_lt, ◌==◌,
  if◌then◌else◌, inl, inr, Bool-cases, lt_wf, ==_iff,
}
use native.Mathlib.Nat.{
  add-zero, add-suc, pow-zero, pow-suc, mul-le-mul, mul-le-mul_left, mul-le-mul_right,
  div-mul-le_self, pow-le-pow_left,
}
use native.Mathlib.Bridge.{le_prop}
use mathlib.Core.WellFounded.{Acc}
use mathlib.Core.Path.{subst}
use mathlib.Core.Logic.{dif_pos, dif_neg}
use summerpoem_cli.Core.Emission.{pow_loop, pow_q96, halves, one_q96}

pub mul-pow : (a b n : ℕ) → (a * b) ^ n ≡ a ^ n * b ^ n
mul-pow a b zero = simp pow-zero (omega arith)
mul-pow a b (suc n) = simp (pow-suc, mul-pow a b n) (omega arith)

pub pow-add : (a m n : ℕ) → a ^ (m + n) ≡ a ^ m * a ^ n
pow-add a m zero = simp (add-zero, pow-zero) (omega arith)
pow-add a m (suc n) = simp (add-suc, pow-suc, pow-add a m n) (omega arith)

-- One squaring step: what is lost by the division only lowers the result.
square_step : (q base h : ℕ) → (base * base / q) ^ h * q ^ h ≤ base ^ h * base ^ h
square_step q base h = simp (← mul-pow) (pow-le-pow_left (div-mul-le_self (base * base) q) h)

even_step :
    (q r acc base h : ℕ)
    → r * q ^ h ≤ acc * (base * base / q) ^ h
    → r * q ^ (h + h) ≤ acc * base ^ (h + h)
even_step q r acc base h ih =
    simp pow-add
      (omega (arith, mul-le-mul_right (q ^ h) ih, mul-le-mul_left acc (square_step q base h)))

odd_step :
    (q r acc base h : ℕ)
    → r * q ^ h ≤ (acc * base / q) * (base * base / q) ^ h
    → r * q ^ suc (h + h) ≤ acc * base ^ suc (h + h)
odd_step q r acc base h ih =
    simp (pow-suc, pow-add)
      (omega (
        arith,
        mul-le-mul_right (q ^ h * q) ih,
        mul-le-mul (div-mul-le_self (acc * base) q) (square_step q base h),
      ))

-- Halving splits an exponent into an even part and a last bit.
halves_even : (e : ℕ) → e % 2 ≢ 1 → e ≡ e / 2 + e / 2
halves_even e h = omega arith

halves_odd : (e : ℕ) → e % 2 ≡ 1 → e ≡ suc (e / 2 + e / 2)
halves_odd e h = omega arith

round :
    (r acc base e : ℕ)
    → r * one_q96 ^ (e / 2)
      ≤ (if e % 2 == 1 then acc * base / one_q96 else acc) * (base * base / one_q96) ^ (e / 2)
    → r * one_q96 ^ e ≤ acc * base ^ e
round r acc base e ih = elim (Bool-cases (e % 2 == 1)) [
  | inl odd ↦
      subst (λ k. r * one_q96 ^ k ≤ acc * base ^ k) (sym (halves_odd e ((==_iff _ _).0 odd)))
        (odd_step one_q96 r acc base (e / 2) (rw odd at ih))
  | inr even ↦
      subst (λ k. r * one_q96 ^ k ≤ acc * base ^ k) (sym (halves_even e (ground arith)))
        (even_step one_q96 r acc base (e / 2) (rw even at ih))
]

pow_loop-le :
    (acc base e : ℕ) (w : Acc ◌<◌ e) → pow_loop acc base e w * one_q96 ^ e ≤ acc * base ^ e
unfolding pow_loop
pow_loop-le acc base e (Acc.intro _ smaller) = elim (dec_lt 0 e) [
  | yes p ↦ rw (dif_pos _ le_prop p) (
      round _ acc base e (
        pow_loop-le (if e % 2 == 1 then acc * base / one_q96 else acc) (base * base / one_q96)
          (e / 2) (smaller _ (halves e p))))
  | no p ↦ rw (dif_neg _ p) (let z : e ≡ 0 = omega arith in simp (z, pow-zero) (omega arith))
]

-- The fixed-point power never exceeds the exact one: with `base / 2 ^ 96` the exact base, the
-- result over `2 ^ 96` is at most its `e`-th power.
pub pow_q96-le : (base e : ℕ) → pow_q96 base e * one_q96 ^ e ≤ one_q96 * base ^ e
unfolding pow_q96
pow_q96-le base e = pow_loop-le one_q96 base e (lt_wf.apply e)
