-- ===== src/Programs/Rig/Search.antt =====
-- What a rig's answer is worth.
use summerpoem_cli.Prelude.{
  ℕ, zero, suc, ◌+◌, ◌%◌, ◌<◌, ◌≡◌, refl, sym, ◌∙◌, inl, inr, Bool, true, Option, none, some, List,
  Option-cases, ◌⊎◌,
}
use mathlib.Core.Path.{subst}
use summerpoem_cli.Prelude.Result.{Result, ok, err}
use summerpoem_cli.Prelude.Checked.{u64_mod}
use summerpoem_cli.Core.Hash.{Hash256}
use summerpoem_cli.Core.Block.{Block, pow_message}
use summerpoem_cli.Core.Compact.{bits_to_target}
use summerpoem_cli.Node.Miner.{with_nonce}
use summerpoem_cli.Pow.{PowContext, dataset_pages, compute, mine}
use summerpoem_cli.Pow.Mine.{Tried, Found, mine-Found}
use summerpoem_cli.Programs.Gpu.{GpuMiner, search}
use summerpoem_cli.Programs.Gpu.Search.{search-Tried}
use summerpoem_cli.Programs.Rig.{
  Rig, gpu, cpu, Searched, answered, gpu_chunk_len, cpu_chunk_len, gpu_answer, cpu_answer, try_at,
  try_mine, gpu_round, cpu_round, mine_rounds, rig_mine,
}

some-injective : {A : Type 0} {x y : A} → some x ≡ some y → x ≡ y
some-injective h = cc

answered-block : {x y : Bool} {b b' : Block} → answered x b ≡ answered y b' → b ≡ b'
answered-block h = cc

module _ (digest : List ℕ → Hash256) (xof : List ℕ → ℕ → List ℕ) (ctx : PowContext) where
  -- The device hashes as the CPU does.
  abbrev pub IsMiner : GpuMiner → Type 0
  IsMiner g =
      (message : Hash256) (nonce : ℕ)
      → compute digest xof ctx message nonce ≡ some (g.sumphash message nonce)

  abbrev pub IsSearcher : Rig → Type 0
  IsSearcher (gpu g) = IsMiner g
  IsSearcher cpu = Unit {0}

  -- The block is the one that was given, with a nonce whose hash meets the block's target.
  abbrev pub IsMined : Block → Block → Type 0
  IsMined b b' =
      (target : ℕ) × (nonce : ℕ) × (bits_to_target b.header.bits ≡ some target)
      × (b' ≡ with_nonce nonce b)
      × Tried (compute digest xof ctx (pow_message digest b.header)) target nonce true

  module _ (pages : 0 < dataset_pages ctx) (b : Block) (target : ℕ) where
    abbrev Meets : Block → Type 0
    Meets b' =
        (nonce : ℕ) × (b' ≡ with_nonce nonce b)
        × Tried (compute digest xof ctx (pow_message digest b.header)) target nonce true

    mine-Meets :
        (begin max_iters nonce : ℕ)
        → mine digest xof ctx (pow_message digest b.header) target begin max_iters
          ≡ some (some nonce)
        → Tried (compute digest xof ctx (pow_message digest b.header)) target nonce true
    mine-Meets begin max_iters nonce h =
        let (r, e, found) =
          mine-Found digest xof ctx (pow_message digest b.header) target begin max_iters pages in
        let same : some r ≡ some (some nonce) = sym e ∙ h in
        let (_, _, _, _, met, _) =
          subst
            (Found (compute digest xof ctx (pow_message digest b.header)) target begin max_iters 0)
            (some-injective same) found in
        met

    gpu_answer-Meets :
        (g : GpuMiner) (law : IsMiner g) (begin chunk : ℕ) (r : Result (Unit {0}) (Option ℕ))
        (b' : Block)
        → search g (pow_message digest b.header) target begin chunk ≡ r
        → gpu_answer chunk b r ≡ answered true b'
        → Meets b'
    unfolding gpu_answer
    gpu_answer-Meets g law begin chunk (ok (some nonce)) b' e h = (
      nonce,
      answered-block (sym h),
      search-Tried g _ target begin chunk digest xof ctx (law _) nonce e,
    )
    gpu_answer-Meets g law begin chunk (ok none) b' e h = absurd cc
    gpu_answer-Meets g law begin chunk (err x) b' e h = absurd cc

    cpu_answer-Meets :
        (begin max_iters : ℕ) (r : Option (Option ℕ)) (b' : Block)
        → mine digest xof ctx (pow_message digest b.header) target begin max_iters ≡ r
        → cpu_answer b r ≡ answered true b'
        → Meets b'
    unfolding cpu_answer
    cpu_answer-Meets begin max_iters none b' e h = absurd cc
    cpu_answer-Meets begin max_iters (some none) b' e h = absurd cc
    cpu_answer-Meets begin max_iters (some (some nonce)) b' e h =
        (nonce, answered-block (sym h), mine-Meets begin max_iters nonce e)

    gpu_round-Meets :
        (g : GpuMiner) (law : IsMiner g) (begin chunk : ℕ) (rest : Searched)
        (r : Result (Unit {0}) (Option ℕ)) (b' : Block)
        → search g (pow_message digest b.header) target begin chunk ≡ r
        → (rest ≡ answered true b' → Meets b')
        → gpu_round b rest r ≡ answered true b'
        → Meets b'
    unfolding gpu_round
    gpu_round-Meets g law begin chunk rest (ok (some nonce)) b' e later h = (
      nonce,
      answered-block (sym h),
      search-Tried g _ target begin chunk digest xof ctx (law _) nonce e,
    )
    gpu_round-Meets g law begin chunk rest (ok none) b' e later h = later h
    gpu_round-Meets g law begin chunk rest (err x) b' e later h = absurd cc

    cpu_round-Meets :
        (begin max_iters : ℕ) (rest : Searched) (r : Option (Option ℕ)) (b' : Block)
        → mine digest xof ctx (pow_message digest b.header) target begin max_iters ≡ r
        → (rest ≡ answered true b' → Meets b')
        → cpu_round b rest r ≡ answered true b'
        → Meets b'
    unfolding cpu_round
    cpu_round-Meets begin max_iters rest none b' e later h = absurd cc
    cpu_round-Meets begin max_iters rest (some none) b' e later h = later h
    cpu_round-Meets begin max_iters rest (some (some nonce)) b' e later h =
        (nonce, answered-block (sym h), mine-Meets begin max_iters nonce e)

    mine_rounds-Meets :
        (rounds : ℕ) (rig : Rig) (begin : ℕ) (b' : Block)
        → IsSearcher rig
        → mine_rounds digest xof rounds rig ctx b target begin ≡ answered true b'
        → Meets b'
    unfolding mine_rounds
    mine_rounds-Meets zero rig begin b' law h = absurd cc
    mine_rounds-Meets (suc rounds) (gpu g) begin b' law h =
        gpu_round-Meets g law begin gpu_chunk_len _ _ b' refl
          (mine_rounds-Meets rounds (gpu g) ((begin + gpu_chunk_len) % u64_mod) b' law) h
    mine_rounds-Meets (suc rounds) cpu begin b' law h =
        cpu_round-Meets begin cpu_chunk_len _ _ b' refl
          (mine_rounds-Meets rounds cpu ((begin + cpu_chunk_len) % u64_mod) b' law) h

  module _ (pages : 0 < dataset_pages ctx) (b b' : Block) (rig : Rig) (law : IsSearcher rig) where
    try_at-IsMined :
        (chunk : ℕ) (t : Option ℕ)
        → bits_to_target b.header.bits ≡ t
        → try_at digest xof rig ctx b chunk t ≡ answered true b'
        → IsMined b b'
    unfolding try_at
    try_at-IsMined chunk none e h = absurd cc
    try_at-IsMined chunk (some target) e h =
        let (nonce, same, met) = by_rig rig law h in (target, nonce, e, same, met)
      where
        by_rig :
            (r : Rig)
            → IsSearcher r
            → try_at digest xof r ctx b chunk (some target) ≡ answered true b'
            → Meets pages b target b'
        by_rig (gpu g) l k = gpu_answer-Meets pages b target g l b.header.nonce chunk _ b' refl k
        by_rig cpu l k = cpu_answer-Meets pages b target b.header.nonce cpu_chunk_len _ b' refl k

    rig_mine-IsMined :
        (rounds : ℕ) → rig_mine digest xof rounds rig ctx b ≡ answered true b' → IsMined b b'
    unfolding rig_mine
    rig_mine-IsMined rounds h = elim (Option-cases (bits_to_target b.header.bits)) [
      | inl e ↦ absurd (let k = rw (e, rig_mine) at h in cc)
      | inr (target, e) ↦
          let (nonce, same, met) =
            mine_rounds-Meets pages b target rounds rig b.header.nonce b' law
              (rw (e, rig_mine) at h) in
          (target, nonce, e, same, met)
    ]

    -- A block that a rig reports as mined, after one attempt or after any number of rounds, is the
    -- given one with a nonce whose hash meets the target of its bits.
    pub rig-IsMined :
        (rounds chunk : ℕ)
        → (rig_mine digest xof rounds rig ctx b ≡ answered true b')
          ⊎ (try_mine digest xof rig ctx b chunk ≡ answered true b')
        → IsMined b b'
    unfolding try_mine
    rig-IsMined rounds chunk (inl h) = rig_mine-IsMined rounds h
    rig-IsMined rounds chunk (inr h) = try_at-IsMined chunk _ refl h
