-- ===== src/Tests/Chain.antt =====
-- The chain's theorems at a concrete network.
use summerpoem_cli.Prelude.{ℕ, ◌<◌, length, ◌+◌, ◌≤◌, ◌≡◌, ◌≢◌, refl, true, List, [], ◌∷◌, some}
use summerpoem_cli.Prelude.Result.{ok, err}
use summerpoem_cli.Core.Hash.{Hash256, zero_hash, sha3}
use summerpoem_cli.Node.Error.{ValidationError}
use summerpoem_cli.Node.CheckTx.{check_tx}
use summerpoem_cli.Node.CheckTx.Inputs.{lookup_in, Accepted, check_tx-Accepted}
use summerpoem_cli.Node.Chain.Walk.{walk_back-total}
use summerpoem_cli.Node.Chain.Heaviest.{TipIs, add_block-Heavier}
use summerpoem_cli.Node.Chain.Invariant.{IsValid, add_block-IsValid}
use summerpoem_cli.Node.Chain.Refusal.{SameLedger, add_block-SameLedger}
use summerpoem_cli.Core.Block.{Block, BlockHeader, header_hash}
use summerpoem_cli.Node.Utxo.{value}
use summerpoem_cli.Core.Emission.{block_reward, supply_cap}
use summerpoem_cli.Node.Utxo.{Utxos}
use summerpoem_cli.Node.Blocks.{validate_block_txs}
use summerpoem_cli.Node.Blocks.Conserve.{validate_block_txs-conserves}
use summerpoem_cli.Node.Chain.{
  BlockMeta, walk_back, last?, ChainState, Outcome, refused, expected_bits, new_chain, add_block,
}
use summerpoem_cli.Node.Chain.Supply.{Reach, start, offered, Reach-IsValid, supply-le-supply_cap}
use summerpoem_cli.Prelude.Dictionary.{get}
use summerpoem_cli.Prelude.Equality.{bytes_Eq}
use summerpoem_cli.Tests.Run.{everything}
use summerpoem_cli.Tests.Sample.{
  digest, primitives, pow, params, coinbase, unrooted, rooted, genesis, spend,
}

abbrev pub nothing : ChainState
nothing = record {
  params = params;
  all = [];
  meta = [];
  active = [];
  utxos = [];
  supply = 0;
  genesis_hash = zero_hash;
}

abbrev pub state_of : Outcome ChainState → ChainState
state_of (ok s) = s
state_of (err e) = nothing

unfoldable pub first_state : ChainState
first_state = state_of (new_chain primitives pow params genesis)

pub new_chain_run : new_chain primitives pow params genesis ≡ ok first_state
unfolding first_state everything
new_chain_run = refl

unfoldable pub bits_of : Outcome ℕ → ℕ
bits_of (ok b) = b
bits_of (err e) = 0

-- The second block: a coinbase that takes the fee, and the spending transaction.
unfoldable pub second : Block
second = rooted (
    unrooted (header_hash digest genesis.header) 1060
      (bits_of (expected_bits first_state (header_hash digest genesis.header)))
      (coinbase 1 600 ∷ spend ∷ []))

unfoldable pub second_state : ChainState
second_state = (add_block primitives pow second first_state).1

second_run : (add_block primitives pow second first_state).0 ≡ ok true
unfolding second first_state bits_of everything
second_run = refl

second_ledger : (second_state.supply ≡ 1500) × (value second_state.utxos ≡ 1500)
unfolding second_state second first_state bits_of everything
second_ledger = (refl, refl)

-- Offered again, the block is refused.
again_run :
    (add_block primitives pow second second_state).0 ≡ err (refused ValidationError.duplicate)
unfolding second_state second first_state bits_of everything
again_run = refl

pub never_zero : (bs : List ℕ) → digest bs ≢ zero_hash
never_zero bs h = cc

header_nonzero : (h : BlockHeader) → header_hash digest h ≢ zero_hash
unfolding header_hash sha3
header_nonzero h e = cc

pub second_reached : Reach primitives pow params genesis second_state
unfolding second_state
second_reached = offered (start first_state new_chain_run) second

supply-le-supply_cap_example :
    (value second_state.utxos ≤ second_state.supply) × (second_state.supply ≤ supply_cap)
supply-le-supply_cap_example =
    supply-le-supply_cap primitives pow params genesis never_zero second_reached

pub first_state-IsValid : IsValid first_state
first_state-IsValid =
    Reach-IsValid primitives pow params genesis never_zero (start first_state new_chain_run)

add_block-IsValid_example : IsValid (add_block primitives pow second first_state).1
add_block-IsValid_example =
    add_block-IsValid primitives pow second first_state (header_nonzero second.header)
      first_state-IsValid

add_block-SameLedger_example :
    SameLedger second_state (add_block primitives pow second second_state).1
add_block-SameLedger_example =
    add_block-SameLedger primitives pow second second_state (λ e. cc again_run)

spend_run : check_tx primitives params (lookup_in first_state.utxos) spend 1 tt ≡ ok 100
unfolding first_state everything
spend_run = refl

check_tx-Accepted_example : Accepted primitives params first_state.utxos spend 1 100
check_tx-Accepted_example =
    check_tx-Accepted primitives params first_state.utxos spend 1 100 spend_run

second_txs_run :
    (r : ℕ × Utxos) × (validate_block_txs primitives params second 1 first_state.utxos ≡ ok r)
    × (r.0 ≡ 500)
unfolding second first_state bits_of everything
second_txs_run = (_, refl, refl)

validate_block_txs-conserves_example :
    (value second_txs_run.0.1 ≤ value first_state.utxos + second_txs_run.0.0)
    × (second_txs_run.0.0 ≤ block_reward 1)
validate_block_txs-conserves_example =
    validate_block_txs-conserves primitives params second 1 first_state.utxos second_txs_run.0.0
      second_txs_run.0.1 second_txs_run.1

genesis_entry : BlockMeta
genesis_entry = record { height = 0; cum_work = 4294967295; time = 1000; parent = zero_hash }

genesis_found : get (header_hash digest genesis.header) first_state.meta ≡ some genesis_entry
unfolding genesis_entry first_state everything
genesis_found = refl

walk_back-total_example :
    let h = header_hash digest genesis.header in
    (c : List Hash256) × (walk_back first_state.meta 1 h [] ≡ ok c)
    × (length c ≡ 1)
    × (last? c ≡ last? (h ∷ []))
unfolding genesis_entry
walk_back-total_example =
    walk_back-total first_state.all first_state.meta first_state-IsValid.index 0
      (header_hash digest genesis.header) genesis_entry [] genesis_found refl

first_tip : TipIs first_state genesis_entry
unfolding genesis_entry first_state everything
first_tip = (header_hash digest genesis.header, refl, refl)

add_block-Heavier_example :
    (m : BlockMeta) × (genesis_entry.cum_work < m.cum_work)
    × TipIs (add_block primitives pow second first_state).1 m
add_block-Heavier_example =
    add_block-Heavier primitives pow second first_state genesis_entry (header_nonzero second.header)
      first_state-IsValid first_tip second_run
