-- ===== src/Programs/Rig.antt =====
-- crates/cli/src/mining.rs: the rig that searches for a nonce, on a GPU or on the CPU. Choosing
-- the rig is left out.
use summerpoem_cli.Prelude.{
  ℕ, zero, suc, ◌+◌, ◌%◌, ◌<◌, ◌≡◌, Bool, true, false, Option, none, some, List, if◌then◌else◌,
}
use summerpoem_cli.Prelude.Result.{Result, ok, err}
use summerpoem_cli.Prelude.Checked.{u64_mod}
use summerpoem_cli.Core.Hash.{Hash256}
use summerpoem_cli.Core.Block.{Block, pow_message}
use summerpoem_cli.Core.Compact.{bits_to_target}
use summerpoem_cli.Node.Miner.{with_nonce}
use summerpoem_cli.Pow.{PowContext, mine}
use summerpoem_cli.Programs.Gpu.{GpuMiner, search}
pub mod Search

abbrev pub gpu_chunk_len : ℕ
gpu_chunk_len = 8_388_608

abbrev pub cpu_chunk_len : ℕ
cpu_chunk_len = 1_000_000

pub data Rig : Type 0 where
  gpu : GpuMiner → Rig
  cpu : Rig

-- The end of a search: the answer with the block, a panic, or rounds that the model does not have.
pub data Searched : Type 0 where
  answered : Bool → Block → Searched
  panicked out_of_rounds : Searched

unfoldable pub moved_on : ℕ → Block → Block
moved_on chunk b = with_nonce ((b.header.nonce + chunk) % u64_mod) b

unfoldable pub gpu_answer : ℕ → Block → Result (Unit {0}) (Option ℕ) → Searched
unfolding moved_on
gpu_answer chunk b (ok (some nonce)) = answered true (with_nonce nonce b)
gpu_answer chunk b (ok none) = answered false (moved_on chunk b)
gpu_answer chunk b (err e) = answered false b

unfoldable pub cpu_answer : Block → Option (Option ℕ) → Searched
unfolding moved_on
cpu_answer b none = panicked
cpu_answer b (some (some nonce)) = answered true (with_nonce nonce b)
cpu_answer b (some none) = answered false (moved_on cpu_chunk_len b)

-- A round of `Rig::mine`, with the result of the rounds after it.
unfoldable pub gpu_round : Block → Searched → Result (Unit {0}) (Option ℕ) → Searched
gpu_round b rest (ok (some nonce)) = answered true (with_nonce nonce b)
gpu_round b rest (ok none) = rest
gpu_round b rest (err e) = answered false b

unfoldable pub cpu_round : Block → Searched → Option (Option ℕ) → Searched
cpu_round b rest none = panicked
cpu_round b rest (some (some nonce)) = answered true (with_nonce nonce b)
cpu_round b rest (some none) = rest

module _ (digest : List ℕ → Hash256) (xof : List ℕ → ℕ → List ℕ) where
  unfoldable pub try_at : Rig → PowContext → Block → ℕ → Option ℕ → Searched
  unfolding gpu_answer cpu_answer
  try_at rig ctx b chunk none = panicked
  try_at (gpu g) ctx b chunk (some target) =
      gpu_answer chunk b (search g (pow_message digest b.header) target b.header.nonce chunk)
  try_at cpu ctx b chunk (some target) =
      cpu_answer b
        (mine digest xof ctx (pow_message digest b.header) target b.header.nonce cpu_chunk_len)

  -- `Rig::try_mine`
  unfoldable pub try_mine : Rig → PowContext → Block → ℕ → Searched
  unfolding try_at
  try_mine rig ctx b chunk = try_at rig ctx b chunk (bits_to_target b.header.bits)

  -- The loops of `Rig::mine`, from a nonce on, which end only with an answer.
  unfoldable pub mine_rounds : ℕ → Rig → PowContext → Block → ℕ → ℕ → Searched
  unfolding gpu_round cpu_round
  mine_rounds zero rig ctx b target begin = out_of_rounds
  mine_rounds (suc rounds) (gpu g) ctx b target begin =
      gpu_round b (mine_rounds rounds (gpu g) ctx b target ((begin + gpu_chunk_len) % u64_mod))
        (search g (pow_message digest b.header) target begin gpu_chunk_len)
  mine_rounds (suc rounds) cpu ctx b target begin =
      cpu_round b (mine_rounds rounds cpu ctx b target ((begin + cpu_chunk_len) % u64_mod))
        (mine digest xof ctx (pow_message digest b.header) target begin cpu_chunk_len)

  unfoldable pub rig_mine : ℕ → Rig → PowContext → Block → Searched
  unfolding mine_rounds
  rig_mine rounds rig ctx b = elim (bits_to_target b.header.bits) [
    | none ↦ panicked
    | some target ↦ mine_rounds rounds rig ctx b target b.header.nonce
  ]
