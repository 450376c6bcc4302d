-- ===== src/Core/Emission/Supply.antt =====
-- The block rewards against the supply cap.
use summerpoem_cli.Prelude.{ℕ, zero, suc, ◌+◌, ◌-◌, ◌*◌, ◌/◌, ◌^◌, ◌≤◌, ◌<◌, ◌≡◌, ap, arith}
use native.Mathlib.Nat.{
  pow-suc, mul-le-mul_left, mul-le-mul_right, div-mul-le_self, le_trans, pow-le-pow_left,
  one-le-pow, one-le-mul, le-add_right, le_of_mul-le-mul_right,
}
use summerpoem_cli.Core.Emission.{block_reward, supply_cap, decay_m, base_q96, pow_q96, one_q96}
use summerpoem_cli.Core.Emission.Power.{pow_q96-le, mul-pow}

-- The rewards of the blocks below `height`, added up.
unfoldable pub issued : ℕ → ℕ
issued zero = 0
issued (suc height) = issued height + block_reward height

abbrev first_reward : ℕ
first_reward = supply_cap / decay_m

base_step : base_q96 * decay_m ≤ (decay_m - 1) * one_q96
unfolding base_q96
base_step = omega arith

product_pow_mono : (b m a q h : ℕ) → b * m ≤ a * q → b ^ h * m ^ h ≤ a ^ h * q ^ h
product_pow_mono b m a q h e = simp (← mul-pow) (pow-le-pow_left e h)

scaled_product :
    (r f q b m a r₀ x y z w : ℕ)
    → r * q ≤ r₀ * f
    → f * x ≤ q * y
    → y * z ≤ w * x
    → r * z * (q * x) ≤ r₀ * w * (q * x)
scaled_product r f q b m a r₀ x y z w hr hf hb =
    omega
      (arith, mul-le-mul_right (z * x) hr, mul-le-mul_left (r₀ * z) hf, mul-le-mul_left (r₀ * q) hb)

scaled :
    (r f q b m a r₀ h : ℕ)
    → 0 < q
    → r * q ≤ r₀ * f
    → f * q ^ h ≤ q * b ^ h
    → b * m ≤ a * q
    → r * m ^ h ≤ r₀ * a ^ h
scaled r f q b m a r₀ h pos hr hf hb =
    le_of_mul-le-mul_right
      (scaled_product r f q b m a r₀ (q ^ h) (b ^ h) (m ^ h) (a ^ h) hr hf
        (product_pow_mono b m a q h hb))
      (one-le-mul pos (one-le-pow h q pos))

-- A reward is at most the first reward times ((M - 1) / M) ^ height.
pub decayed : (h : ℕ) → block_reward h * decay_m ^ h ≤ first_reward * (decay_m - 1) ^ h
unfolding block_reward
decayed h =
    scaled _ (pow_q96 base_q96 h) one_q96 base_q96 decay_m (decay_m - 1) first_reward h
      (omega arith) (div-mul-le_self _ one_q96) (pow_q96-le base_q96 h) base_step

-- The geometric sum without division.
sum_step :
    (s r m a r₀ x y : ℕ)
    → m ≡ suc a
    → s * x + r₀ * m * y ≤ r₀ * m * x
    → r * x ≤ r₀ * y
    → (s + r) * (x * m) + r₀ * m * (y * a) ≤ r₀ * m * (x * m)
sum_step s r m a r₀ x y e hs hr =
    omega (arith, mul-le-mul_right m hs, mul-le-mul_right m hr, ap (λ (t : ℕ). r₀ * m * y * t) e)

geometric :
    (n : ℕ)
    → issued n * decay_m ^ n + first_reward * decay_m * (decay_m - 1) ^ n
      ≤ first_reward * decay_m * decay_m ^ n
unfolding issued
geometric zero = omega arith
geometric (suc n) = simp pow-suc (
    sum_step (issued n) (block_reward n) decay_m (decay_m - 1) first_reward (decay_m ^ n)
      ((decay_m - 1) ^ n) (omega arith) (geometric n) (decayed n))

-- However many blocks there are, their rewards never exceed the supply cap.
pub issued-le-supply_cap : (n : ℕ) → issued n ≤ supply_cap
issued-le-supply_cap n =
    le_trans
      (le_of_mul-le-mul_right (le_trans (le-add_right _ _) (geometric n))
        (one-le-pow n decay_m (omega arith)))
      (omega arith)

-- No block's reward exceeds the first one's.
pub block_reward-le : (h : ℕ) → block_reward h ≤ first_reward
block_reward-le h =
    le_of_mul-le-mul_right
      (le_trans (decayed h) (mul-le-mul_left first_reward (pow-le-pow_left (omega arith) h)))
      (one-le-pow h decay_m (omega arith))
