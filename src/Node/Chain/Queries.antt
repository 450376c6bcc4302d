-- ===== src/Node/Chain/Queries.antt =====
-- The queries of `ChainState` that peers ask: blocks by height and hash, the locator and the hashes
-- after it.
use summerpoem_cli.Prelude.{
  ℕ, zero, suc, ◌+◌, ◌-◌, ◌*◌, Bool, true, false, Option, none, some, List, [], ◌∷◌, ◌++◌, length,
  take, drop, get_elem?, ltb, leb, if◌then◌else◌,
}
use summerpoem_cli.Prelude.Equality.{bytes_eq, bytes_Eq}
use summerpoem_cli.Prelude.Dictionary.{get, contains_key}
use summerpoem_cli.Core.Hash.{Hash256, zero_hash}
use summerpoem_cli.Core.Block.{Block}
use summerpoem_cli.Node.Chain.{BlockMeta, ChainState}
pub mod Length

-- `ChainState::height`, of an active chain that has its genesis block.
unfoldable pub chain_height : ChainState → ℕ
chain_height s = length s.active - 1

unfoldable pub block_by_hash : Hash256 → ChainState → Option Block
block_by_hash hash s = get hash s.all

unfoldable pub contains_block : Hash256 → ChainState → Bool
contains_block hash s = contains_key hash s.all

unfoldable pub block_of : Option Hash256 → ChainState → Option Block
block_of none s = none
block_of (some hash) s = get hash s.all

unfoldable pub block_at : ℕ → ChainState → Option Block
block_at height s = block_of (get_elem? s.active height) s

-- `self.active.get(height) == Some(hash)`
unfoldable pub is_at : Hash256 → Option Hash256 → Bool
is_at hash none = false
is_at hash (some h) = bytes_eq h hash

unfoldable pub is_active : Hash256 → ChainState → Bool
is_active hash s = elim (get hash s.meta) [
  | none ↦ false
  | some m ↦ is_at hash (get_elem? s.active m.height)
]

unfoldable pub found_or_zero : Option Hash256 → Hash256
found_or_zero none = zero_hash
found_or_zero (some h) = h

-- `active[h]`, at a height that the chain has.
unfoldable pub active_at : List Hash256 → ℕ → Hash256
active_at active h = found_or_zero (get_elem? active h)

unfoldable pub next_step : ℕ → ℕ → ℕ
next_step step count = if leb 10 count then step * 2 else step

-- The loop of `locator`, with `count` hashes pushed so far. The height falls in every round, so as
-- many rounds as the height are enough; where the source's height falls below 0 it is 0 here.
unfoldable pub locator_from : ℕ → List Hash256 → ℕ → ℕ → ℕ → List Hash256
locator_from zero active h step count = []
locator_from (suc fuel) active h step count =
    let step' = next_step step (suc count) in
    let rest = locator_from fuel active (h - step') step' (suc count) in
    if ltb 0 h then active_at active h ∷ rest else []

unfoldable pub locator : ChainState → List Hash256
locator s =
    locator_from (chain_height s) s.active (chain_height s) 1 0 ++ (active_at s.active 0 ∷ [])

unfoldable pub height_of : Option BlockMeta → ℕ
height_of none = 0
height_of (some m) = m.height

-- The loop over the locator: the height of the first active entry, or 0.
unfoldable pub fork_height : List Hash256 → ChainState → ℕ
fork_height [] s = 0
fork_height (h ∷ hs) s =
    let rest = fork_height hs s in if is_active h s then height_of (get h s.meta) else rest

unfoldable pub hashes_after_locator : List Hash256 → ℕ → ChainState → List Hash256
hashes_after_locator hashes max s = take max (drop (fork_height hashes s + 1) s.active)
