-- ===== src/Node/Miner.antt =====
-- crates/node/src/miner.rs and genesis.rs: block templates, mining and the genesis block. The
-- version of the build is an argument; `none` and `panicked` are an `expect` that fails.
use summerpoem_cli.Prelude.{
  ℕ, ◌+◌, ◌-◌, ◌*◌, ◌%◌, ◌^◌, ◌≡◌, Bool, true, false, Option, none, some, List, [], ◌∷◌, ◌++◌,
  replicate, ltb, leb, ◌&&◌, ◌||◌, if◌then◌else◌,
}
use summerpoem_cli.Prelude.Result.{Result, ok, err, ◌>>=◌, ◌>>◌, ok_or}
use summerpoem_cli.Prelude.Checked.{u64_mod}
use summerpoem_cli.Core.Compact.{bits_to_target, target_to_bits}
use summerpoem_cli.Core.Emission.{block_reward}
use summerpoem_cli.Core.Encode.{le_bytes}
use summerpoem_cli.Core.Hash.{Hash256, zero_hash}
use summerpoem_cli.Core.Params.{Params}
use summerpoem_cli.Core.Tx.{
  ml_dsa, p2pkh, TxInput, TxOutput, Transaction, coinbase_version_marker, size,
}
use summerpoem_cli.Core.Block.{
  BlockHeader, Block, compute_tx_root, compute_witness_root, pow_message,
}
use summerpoem_cli.Crypto.{Primitives}
use summerpoem_cli.Pow.{PowContext, mine}
use summerpoem_cli.Node.Utxo.{outpoint_eq}
use summerpoem_cli.Node.CheckTx.{Checked}
use summerpoem_cli.Node.Chain.{
  ChainState, panicked, Outcome, PowFunction, last?, median_time_past, expected_bits, add_block,
}
use summerpoem_cli.Node.Chain.Queries.{chain_height}
use summerpoem_cli.Node.Mempool.{validate_standalone_tx}
pub mod Inclusion
pub mod Template

unfoldable pub coinbase_of : ℕ → List ℕ → List ℕ → Transaction
coinbase_of amount pkh coinbase_data = record {
  body = record {
    version = 1;
    inputs = [];
    outputs = record { amount = amount; lock = p2pkh ml_dsa pkh } ∷ [];
    locktime = 0;
    coinbase_data = coinbase_data;
  };
  witnesses = [];
}

-- The height, the marker and the version of the build.
unfoldable pub template_data : ℕ → List ℕ → List ℕ
template_data height version = le_bytes 8 height ++ (coinbase_version_marker ++ version)

unfoldable pub spends_any : TxInput → List TxInput → Bool
spends_any a [] = false
spends_any a (b ∷ inputs) = outpoint_eq a.prevout b.prevout || spends_any a inputs

unfoldable pub shares_input : List TxInput → List TxInput → Bool
shares_input [] inputs = false
shares_input (a ∷ others) inputs = spends_any a inputs || shares_input others inputs

-- The `conflict` test, over the transactions included so far, the latest first.
unfoldable pub conflicts : List Transaction → Transaction → Bool
conflicts [] tx = false
conflicts (other ∷ included) tx =
    shares_input other.body.inputs tx.body.inputs || conflicts included tx

-- The fee of a transaction that a round of the loop includes, by the result of its validation.
unfoldable pub fee_if : List Transaction → ℕ → Transaction → Checked ℕ → Option ℕ
fee_if included budget tx (err e) = none
fee_if included budget tx (ok fee) =
    if ltb budget (size tx) || conflicts included tx then none else some fee

unfoldable pub seal : (List ℕ → Hash256) → Block → Block
seal digest b = record b {
  header = record (b.header) {
    tx_root = compute_tx_root digest b;
    witness_root = compute_witness_root digest b;
  };
}

unfoldable pub unsealed : Hash256 → ℕ → ℕ → List Transaction → Block
unsealed prev time bits txs = record {
  header = record {
    version = 1;
    prev = prev;
    tx_root = zero_hash;
    witness_root = zero_hash;
    time = time;
    bits = bits;
    nonce = 0;
  };
  transactions = txs;
}

unfoldable pub with_nonce : ℕ → Block → Block
with_nonce nonce b = record b { header = record (b.header) { nonce = nonce } }

module _ (p : Primitives) where
  -- The loop over the candidates: what it includes from here on, with the fees at its end.
  unfoldable pub include :
      ChainState → List Transaction → ℕ → ℕ → List Transaction → List Transaction × ℕ
  include s included fees budget [] = ([], fees)
  include s included fees budget (tx ∷ txs) =
      elim (fee_if included budget tx (validate_standalone_tx p s tx)) [
        | none ↦ include s included fees budget txs
        | some fee ↦
            let (rest, total) =
              include s (tx ∷ included) ((fees + fee) % u64_mod) (budget - size tx) txs in
            (tx ∷ rest, total)
      ]

  unfoldable pub template_txs : ChainState → List Transaction → List ℕ → List ℕ → List Transaction
  template_txs s txs pkh version =
      let height = chain_height s + 1 in
      let (included, fees) = include s [] 0 (s.params.max_block_size - 4096) txs in
      coinbase_of ((block_reward height + fees) % u64_mod) pkh (template_data height version)
      ∷ included

  unfoldable pub build_block_template :
      ChainState → List Transaction → List ℕ → ℕ → List ℕ → Outcome Block
  build_block_template s txs pkh now version = do
    tip ← ok_or (last? s.active) panicked
    mtp ← median_time_past s tip
    bits ← expected_bits s tip
    let earliest = (mtp + 1) % u64_mod
    let time = if ltb now earliest then earliest else now
    ok (seal p.digest (unsealed tip time bits (template_txs s txs pkh version)))

  module _ (xof : List ℕ → ℕ → List ℕ) where
    unfoldable pub mined : Block → Option (Option ℕ) → Option (Bool × Block)
    mined b none = none
    mined b (some none) = some (false, b)
    mined b (some (some nonce)) = some (true, with_nonce nonce b)

    unfoldable pub mine_at : PowContext → Block → ℕ → Option ℕ → Option (Bool × Block)
    mine_at ctx b max_iters none = none
    mine_at ctx b max_iters (some target) =
        mined b
          (mine p.digest xof ctx (pow_message p.digest b.header) target b.header.nonce max_iters)

    unfoldable pub mine_block : PowContext → Block → ℕ → Option (Bool × Block)
    mine_block ctx b max_iters = mine_at ctx b max_iters (bits_to_target b.header.bits)

    unfoldable pub genesis_mined : Block → Option (Option ℕ) → Option Block
    genesis_mined b (some (some nonce)) = some (with_nonce nonce b)
    genesis_mined b _ = none

    unfoldable pub genesis_at : PowContext → Block → Option ℕ → Option Block
    genesis_at ctx b none = none
    genesis_at ctx b (some target) =
        genesis_mined b
          (mine p.digest xof ctx (pow_message p.digest b.header) target 0 (u64_mod - 1))

    unfoldable pub genesis_nonce_of : PowContext → Block → Option ℕ → Option Block
    genesis_nonce_of ctx b (some nonce) = some (with_nonce nonce b)
    genesis_nonce_of ctx b none = genesis_at ctx b (bits_to_target b.header.bits)

    unfoldable pub build_genesis : Params → PowContext → Option Block
    build_genesis params ctx =
        let cb =
          coinbase_of (block_reward 0) (replicate 20 0) (le_bytes 8 0 ++ params.genesis_message) in
        genesis_nonce_of ctx
          (seal p.digest
            (unsealed zero_hash params.genesis_time (target_to_bits params.pow_limit) (cb ∷ [])))
          params.genesis_nonce

    module _ (pow : PowFunction) where
      unfoldable pub connected : Block → Outcome Bool × ChainState → Outcome Block × ChainState
      connected b (ok new_tip, s) = (ok b, s)
      connected b (err e, s) = (err e, s)

      unfoldable pub connect_mined : ChainState → Option (Bool × Block) → Outcome Block × ChainState
      connect_mined s (some (true, b)) = connected b (add_block p pow b s)
      connect_mined s _ = (err panicked, s)

      unfoldable pub mine_template :
          ChainState → PowContext → Outcome Block → Outcome Block × ChainState
      mine_template s ctx (err e) = (err e, s)
      mine_template s ctx (ok b) = connect_mined s (mine_block ctx b (u64_mod - 1))

      unfoldable pub mine_and_connect :
          ChainState
          → PowContext
          → List Transaction
          → List ℕ
          → ℕ
          → List ℕ
          → Outcome Block × ChainState
      mine_and_connect s ctx txs pkh now version =
          mine_template s ctx (build_block_template s txs pkh now version)
