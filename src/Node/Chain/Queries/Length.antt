-- ===== src/Node/Chain/Queries/Length.antt =====
-- How long a locator is.
use summerpoem_cli.Prelude.{
  ℕ, zero, suc, ◌+◌, ◌-◌, ◌*◌, ◌^◌, ◌≤◌, ◌<◌, ◌≡◌, refl, arith, List, [], ◌∷◌, length,
  length-append,
}
use summerpoem_cli.Core.Hash.{Hash256}
use summerpoem_cli.Net.Message.{max_locator}
use summerpoem_cli.Node.Chain.{ChainState}
use summerpoem_cli.Node.Chain.Queries.{chain_height, active_at, next_step, locator_from, locator}

-- The height that `m` doubling rounds use up.
unfoldable pub budget : ℕ → ℕ → ℕ
budget step zero = 0
budget step (suc m) = step * 2 + budget (step * 2) m

-- Once ten hashes are pushed the step doubles in every round.
length-doubling :
    (fuel : ℕ) (active : List Hash256) (h step count m : ℕ)
    → 9 ≤ count
    → h ≤ budget step m
    → length (locator_from fuel active h step count) ≤ m
unfolding locator_from next_step budget
length-doubling zero active h step count m c b = omega arith
length-doubling (suc fuel) active h step count zero c b = ground arith
length-doubling (suc fuel) active h step count (suc m) c b =
    ground (arith, length-doubling fuel active (h - step * 2) (step * 2) (suc count) m)

-- Before that it is 1.
length-dense :
    (fuel : ℕ) (active : List Hash256) (h count k m : ℕ)
    → count + k ≡ 9
    → h ≤ k + budget 1 m
    → length (locator_from fuel active h 1 count) ≤ k + m
unfolding locator_from next_step
length-dense fuel active h count zero m c b =
    let l = length-doubling fuel active h 1 count m (omega arith) (omega arith) in omega arith
length-dense zero active h count (suc k) m c b = omega arith
length-dense (suc fuel) active h count (suc k) m c b =
    let l = length-dense fuel active (h - 1) (suc count) k m (omega arith) (omega arith) in
    ground arith

-- The locator of a chain lower than 2 ^ 54 blocks has at most as many hashes as the decoder of
-- messages takes.
pub length-locator : (s : ChainState) → chain_height s < 2 ^ 54 → length (locator s) ≤ max_locator
unfolding locator
length-locator s h =
    let tip = chain_height s in
    let all : 9 + budget 1 54 ≡ 36028797018963975 = unfold budget in refl in
    let l = length-dense tip s.active tip 0 9 54 refl (omega arith) in
    let n = length-append (locator_from tip s.active tip 1 0) (active_at s.active 0 ∷ []) in
    omega arith
