-- ===== src/Node/Blocks/Entries.antt =====
-- A block leaves each unspent output listed once.
use summerpoem_cli.Prelude.{ℕ, suc, ◌≡◌, ap, Bool, true, false, List, [], ◌∷◌}
use mathlib.Core.Path.{subst}
use summerpoem_cli.Prelude.Result.{ok, refuse_if, ok_or, >>=-eq-ok, >>-eq-ok, ok-injective}
use summerpoem_cli.Prelude.Checked.{checked_add}
use summerpoem_cli.Prelude.Dictionary.{Unique, insert-Unique, remove, remove-Unique}
use summerpoem_cli.Core.Hash.{Hash256}
use summerpoem_cli.Core.Tx.{TxInput, TxOutput, Transaction, txid, is_coinbase}
use summerpoem_cli.Core.Block.{Block}
use summerpoem_cli.Core.Params.{Params}
use summerpoem_cli.Crypto.{Primitives}
use summerpoem_cli.Node.Utxo.{Utxos, outpoint_Eq, spend_inputs, add_outputs}
use summerpoem_cli.Node.CheckTx.{check_tx}
use summerpoem_cli.Node.CheckTx.Inputs.{lookup_in}
use summerpoem_cli.Node.Blocks.{
  check_coinbase, check_unique, apply_tx, apply_txs, check_payout, validate_txs, validate_block_txs,
}

spend_inputs-Unique : (xs : List TxInput) (u : Utxos) → Unique u → Unique (spend_inputs xs u)
unfolding spend_inputs
spend_inputs-Unique [] u h = h
spend_inputs-Unique (x ∷ xs) u h =
    spend_inputs-Unique xs (remove x.prevout u) (remove-Unique x.prevout u h)

add_outputs-Unique :
    (id : Hash256) (height : ℕ) (coinbase : Bool) (vout : ℕ) (outputs : List TxOutput) (u : Utxos)
    → Unique u
    → Unique (add_outputs id height coinbase vout outputs u)
unfolding add_outputs
add_outputs-Unique id height coinbase vout [] u h = h
add_outputs-Unique id height coinbase vout (o ∷ outputs) u h =
    add_outputs-Unique id height coinbase (suc vout) outputs _ (insert-Unique _ _ u h)

module _ (p : Primitives) (params : Params) where
  apply_txs-Unique :
      (height : ℕ) (txs : List Transaction) (fees : ℕ) (u : Utxos) (fees' : ℕ) (u' : Utxos)
      → Unique u
      → apply_txs p params height txs fees u ≡ ok (fees', u')
      → Unique u'
  unfolding apply_txs apply_tx
  apply_txs-Unique height [] fees u fees' u' d h =
      subst (λ s. Unique s) (ap (λ t. t.1) (ok-injective h)) d
  apply_txs-Unique height (tx ∷ txs) fees u fees' u' d h =
      let (_, h₁) = >>-eq-ok (refuse_if (is_coinbase tx.body) _) _ h in
      let (fee, _, h₂) = >>=-eq-ok (check_tx p params (lookup_in u) tx height tt) _ h₁ in
      let (sum, _, h₃) = >>=-eq-ok (ok_or (checked_add fees fee) _) _ h₂ in
      apply_txs-Unique height txs sum (apply_tx p params tx height u) fees' u'
        (add_outputs-Unique (txid p.digest tx.body) height false 0 tx.body.outputs _
          (spend_inputs-Unique tx.body.inputs u d))
        h₃

  validate_txs-Unique :
      (txs : List Transaction) (height : ℕ) (u : Utxos) (minted : ℕ) (u' : Utxos)
      → Unique u
      → validate_txs p params txs height u ≡ ok (minted, u')
      → Unique u'
  unfolding validate_txs
  validate_txs-Unique [] height u minted u' d h = absurd cc
  validate_txs-Unique (cb ∷ txs) height u minted u' d h =
      let (_, h₁) = >>-eq-ok (check_coinbase cb height) _ h in
      let (_, h₂) = >>-eq-ok (check_unique [] _) _ h₁ in
      let (applied, a, h₃) = >>=-eq-ok (apply_txs p params height txs 0 u) _ h₂ in
      let (_, _, h₄) = >>=-eq-ok (check_payout p params cb height applied.0) _ h₃ in
      subst (λ s. Unique s) (ap (λ t. t.1) (ok-injective h₄))
        (add_outputs-Unique (txid p.digest cb.body) height true 0 cb.body.outputs applied.1
          (apply_txs-Unique height txs 0 u applied.0 applied.1 d a))

  pub validate_block_txs-Unique :
      (block : Block) (height : ℕ) (u : Utxos) (minted : ℕ) (u' : Utxos)
      → Unique u
      → validate_block_txs p params block height u ≡ ok (minted, u')
      → Unique u'
  unfolding validate_block_txs
  validate_block_txs-Unique block height u minted u' d h =
      validate_txs-Unique block.transactions height u minted u' d h
