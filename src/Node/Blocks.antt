-- ===== src/Node/Blocks.antt =====
-- `validate_block_txs` and `check_roots` of crates/node/src/chain.rs: the transactions of a block,
-- checked and applied to the set of unspent outputs. The source changes the set in place and its
-- callers drop it on an error; here the changed set is returned on success.
use summerpoem_cli.Prelude.{
  ℕ, suc, ◌+◌, ◌-◌, ◌≡◌, Bool, true, false, Option, none, some, List, [], ◌∷◌, length, take, map,
  ltb, ◌==◌, not, ◌&&◌, ◌||◌, if◌then◌else◌,
}
use summerpoem_cli.Prelude.Result.{Result, ok, err, ◌>>=◌, ◌>>◌, refuse_if, ok_or}
use summerpoem_cli.Prelude.Checked.{checked_add}
use summerpoem_cli.Prelude.Equality.{bytes_eq}
use summerpoem_cli.Core.Encode.{le_value}
use summerpoem_cli.Core.Hash.{Hash256}
use summerpoem_cli.Core.Tx.{TxBody, Transaction, txid, is_coinbase, max_coinbase_extra}
use summerpoem_cli.Core.Block.{Block, compute_tx_root, compute_witness_root}
use summerpoem_cli.Core.Params.{Params}
use summerpoem_cli.Core.Emission.{block_reward}
use summerpoem_cli.Crypto.{Primitives}
use summerpoem_cli.Node.Error.{
  ValidationError, no_outputs, bad_coinbase_data, witness_mismatch, overflow, missing_coinbase,
  extra_coinbase, duplicate_tx, coinbase_overpay, bad_merkle_root, bad_witness_root,
}
use summerpoem_cli.Node.Utxo.{Utxos, spend_inputs, add_outputs}
use summerpoem_cli.Node.CheckTx.{Checked, is_empty, sum_outputs, check_tx}
use summerpoem_cli.Node.CheckTx.Inputs.{lookup_in}
pub mod Conserve
pub mod Entries

unfoldable pub seen_before : Hash256 → List Hash256 → Bool
seen_before id [] = false
seen_before id (j ∷ seen) = bytes_eq id j || seen_before id seen

-- `if !seen.insert(tx.txid())`, over all transactions.
unfoldable pub check_unique : List Hash256 → List Hash256 → Checked (Unit {0})
check_unique seen [] = ok tt
check_unique seen (id ∷ ids) =
    let rest = check_unique (id ∷ seen) ids in
    if seen_before id seen then err duplicate_tx else rest

-- The height prefix of the coinbase data.
unfoldable pub bad_height_prefix : List ℕ → ℕ → Bool
bad_height_prefix coinbase_data height =
    ltb (length coinbase_data) 8
    || ltb (8 + max_coinbase_extra) (length coinbase_data)
    || not (le_value (take 8 coinbase_data) == height)

unfoldable pub check_coinbase : Transaction → ℕ → Checked (Unit {0})
check_coinbase cb height = do
  refuse_if (not (is_coinbase cb.body)) missing_coinbase
  refuse_if (not (is_empty cb.witnesses)) witness_mismatch
  refuse_if (is_empty cb.body.outputs) no_outputs
  refuse_if (bad_height_prefix cb.body.coinbase_data height) bad_coinbase_data

module _ (p : Primitives) (params : Params) where
  -- The effect of an accepted transaction on the set.
  unfoldable pub apply_tx : Transaction → ℕ → Utxos → Utxos
  apply_tx tx height u =
      add_outputs (txid p.digest tx.body) height false 0 tx.body.outputs
        (spend_inputs tx.body.inputs u)

  -- The loop over `txs[1..]`, with the fees so far.
  unfoldable pub apply_txs : ℕ → List Transaction → ℕ → Utxos → Checked (ℕ × Utxos)
  apply_txs height [] fees u = ok (fees, u)
  apply_txs height (tx ∷ txs) fees u = do
    refuse_if (is_coinbase tx.body) extra_coinbase
    fee ← check_tx p params (lookup_in u) tx height tt
    fees' ← ok_or (checked_add fees fee) overflow
    apply_txs height txs fees' (apply_tx tx height u)

  -- What the coinbase pays, held against the reward and the fees.
  unfoldable pub check_payout : Transaction → ℕ → ℕ → Checked ℕ
  check_payout cb height fees = do
    cb_total ← sum_outputs 0 cb.body.outputs
    allowed ← ok_or (checked_add (block_reward height) fees) overflow
    refuse_if (ltb allowed cb_total) coinbase_overpay
    ok cb_total

  unfoldable pub validate_txs : List Transaction → ℕ → Utxos → Checked (ℕ × Utxos)
  validate_txs [] height u = err missing_coinbase
  validate_txs (cb ∷ txs) height u = do
    check_coinbase cb height
    check_unique [] (map (λ t. txid p.digest t.body) (cb ∷ txs))
    applied ← apply_txs height txs 0 u
    cb_total ← check_payout cb height applied.0
    ok (
      cb_total - applied.0,
      add_outputs (txid p.digest cb.body) height true 0 cb.body.outputs applied.1,
    )

  -- Returns what the coinbase minted, with the changed set.
  unfoldable pub validate_block_txs : Block → ℕ → Utxos → Checked (ℕ × Utxos)
  validate_block_txs block height u = validate_txs block.transactions height u

  unfoldable pub check_roots : Block → Checked (Unit {0})
  check_roots block = do
    refuse_if (not (bytes_eq block.header.tx_root (compute_tx_root p.digest block))) bad_merkle_root
    refuse_if (not (bytes_eq block.header.witness_root (compute_witness_root p.digest block)))
        bad_witness_root
