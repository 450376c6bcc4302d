-- ===== src/Tests/Rig.antt =====
-- The rig at a small dataset.
use summerpoem_cli.Prelude.{ℕ, ◌-◌, ◌≡◌, refl, true, some, none, List, [], ◌∷◌, replicate}
use summerpoem_cli.Prelude.Result.{ok}
use summerpoem_cli.Prelude.Checked.{u64_mod}
use summerpoem_cli.Core.Hash.{Hash256, zero_hash}
use summerpoem_cli.Pow.{PowContext}
use summerpoem_cli.Programs.Rig.{cpu, answered, rig_mine}
use summerpoem_cli.Programs.Gpu.{GpuMiner, search}
use summerpoem_cli.Tests.Core.{sample_block}
use summerpoem_cli.Tests.Run.{everything}
use summerpoem_cli.Tests.Sample.{params}

abbrev no_digest : List ℕ → Hash256
no_digest bs = zero_hash

abbrev no_xof : List ℕ → ℕ → List ℕ
no_xof input n = replicate n 0

abbrev ctx : PowContext
ctx = record {
  params = params.pow;
  epoch = 0;
  seed = zero_hash;
  cache = replicate 64 0;
  dataset = none;
}

mined_run : rig_mine no_digest no_xof 1 cpu ctx sample_block ≡ answered true sample_block
unfolding everything
mined_run = refl

-- Three threads of a launch for two nonces, one of them over.
abbrev device : GpuMiner
device = record {
  sumphash = λ message nonce. zero_hash;
  threads = λ count. 9 ∷ 1 ∷ 0 ∷ [];
  driver = λ message target start count. ok tt;
}

search_run : search device zero_hash 4 5 2 ≡ ok (some 5)
unfolding everything
search_run = refl

-- Where the last nonce is above the first one's range, the device's find is dropped.
search_wrapped_run : search device zero_hash 4 (u64_mod - 1) 2 ≡ ok none
unfolding everything
search_wrapped_run = refl
