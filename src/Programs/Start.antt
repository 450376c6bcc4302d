-- ===== src/Programs/Start.antt =====
-- The chain file as crates/cli/src/main.rs uses it: `load_state` and `save_state`, between the
-- state and the file's bytes.
use summerpoem_cli.Prelude.{
  ℕ, Bool, true, false, Option, none, some, List, [], ◌∷◌, ◌==◌, not, length, leb, ltb,
  if◌then◌else◌,
}
use summerpoem_cli.Prelude.Result.{Result, ok, err, ◌>>=◌, ◌>>◌, refuse_if, ok_or}
use summerpoem_cli.Prelude.Dictionary.{get}
use summerpoem_cli.Prelude.Equality.{bytes_Eq}
use summerpoem_cli.Core.Hash.{Hash256}
use summerpoem_cli.Core.Block.{Block}
use summerpoem_cli.Core.Params.{Params, network_id, mainnet, regtest, Network}
use summerpoem_cli.Crypto.{Primitives}
use summerpoem_cli.Node.Chain.{ChainState, Failure, Outcome, PowFunction, new_chain, add_block}
use summerpoem_cli.Node.Chain.Queries.{chain_height}
use summerpoem_cli.Node.Store.{LoadError, load_bytes, save_bytes}
use summerpoem_cli.Net.Node.{Shared}
pub mod Sound

pub data StateError : Type 0 where
  file_error : LoadError → StateError
  other_network empty_file : StateError
  invalid_genesis invalid_block : Failure → StateError

unfoldable pub from_file : Result LoadError (ℕ × List Block) → Result StateError (ℕ × List Block)
from_file (ok r) = ok r
from_file (err e) = err (file_error e)

unfoldable pub from_genesis : Outcome ChainState → Result StateError ChainState
from_genesis (ok s) = ok s
from_genesis (err e) = err (invalid_genesis e)

-- `ChainState::active_blocks`: none where the index of a block fails.
unfoldable pub blocks_of : List Hash256 → ChainState → Option (List Block)
blocks_of [] s = some []
blocks_of (h ∷ hs) s =
    let rest = blocks_of hs s in
    elim (get h s.all) [
      | none ↦ none
      | some b ↦ elim rest [ none ↦ none | some bs ↦ some (b ∷ bs) ]
    ]

unfoldable pub active_blocks : ChainState → Option (List Block)
unfolding blocks_of
active_blocks s = blocks_of s.active s

-- The bytes that `save_state` writes.
unfoldable pub save_state : ChainState → Option (List ℕ)
unfolding active_blocks
save_state s = elim (active_blocks s) [
  | none ↦ none
  | some blocks ↦ some (save_bytes (network_id s.params.network) blocks)
]

module _ (p : Primitives) (pow : PowFunction) where
  unfoldable pub after_added :
      (ChainState → Result StateError ChainState)
      → Outcome Bool × ChainState
      → Result StateError ChainState
  after_added next (ok adopted, s) = next s
  after_added next (err e, s) = err (invalid_block e)

  -- The loop over the blocks after the genesis block.
  unfoldable pub replay : List Block → ChainState → Result StateError ChainState
  unfolding after_added
  replay [] s = ok s
  replay (b ∷ blocks) s = after_added (replay blocks) (add_block p pow b s)

  unfoldable pub load_chain : Params → List Block → Result StateError ChainState
  unfolding from_genesis replay
  load_chain params [] = err empty_file
  load_chain params (genesis ∷ blocks) = do
    state ← from_genesis (new_chain p pow params genesis)
    replay blocks state

  -- `load_state`, of the bytes of the file.
  unfoldable pub load_state : Params → List ℕ → Result StateError ChainState
  unfolding from_file load_chain
  load_state params file = do
    (net_id, blocks) ← from_file (load_bytes file)
    refuse_if (not (net_id == network_id params.network)) other_network
    load_chain params blocks

-- Why a node does not mine yet, as `mainnet_mining_wait_reason` tells it.
pub data WaitReason : Type 0 where
  no_peers : WaitReason
  syncing : (local_height best_peer_height : ℕ) → WaitReason

unfoldable pub wait_for : Network → Shared → Option WaitReason
wait_for regtest s = none
wait_for mainnet s =
    if length s.peers == 0
    then some no_peers
    else if ltb (chain_height s.chain) s.best_peer_height
    then some (syncing (chain_height s.chain) s.best_peer_height)
    else none

unfoldable pub mainnet_mining_wait_reason : Params → Shared → Option WaitReason
unfolding wait_for
mainnet_mining_wait_reason params s = wait_for params.network s
