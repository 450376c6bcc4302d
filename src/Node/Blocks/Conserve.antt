-- ===== src/Node/Blocks/Conserve.antt =====
-- A block creates no value but what its coinbase mints, and it mints at most the reward.
use summerpoem_cli.Prelude.{ℕ, ◌+◌, ◌-◌, ◌≤◌, ◌≡◌, ap, arith, true, false, List, [], ◌∷◌, ltb}
use summerpoem_cli.Prelude.Result.{
  ok, refuse_if, ok_or, >>=-eq-ok, >>-eq-ok, refuse_if-eq-ok, ok_or-eq-ok, ok-injective,
}
use summerpoem_cli.Prelude.Checked.{checked_add, checked_add-eq-some}
use summerpoem_cli.Core.Tx.{Transaction, txid, is_coinbase}
use summerpoem_cli.Core.Block.{Block}
use summerpoem_cli.Core.Params.{Params}
use summerpoem_cli.Core.Emission.{block_reward}
use summerpoem_cli.Crypto.{Primitives}
use summerpoem_cli.Node.Utxo.{Utxos, value, spend_inputs}
use summerpoem_cli.Node.Utxo.Value.{value-spend_inputs, value-add_outputs, output_sum}
use summerpoem_cli.Node.CheckTx.{check_tx, sum_outputs}
use summerpoem_cli.Node.CheckTx.Inputs.{lookup_in, check_tx-Accepted, sum_outputs-eq-ok}
use summerpoem_cli.Node.Blocks.{
  check_coinbase, check_unique, apply_tx, apply_txs, check_payout, validate_txs, validate_block_txs,
}

-- The arithmetic of a payout: the fees leave the set, and the coinbase adds at most the reward and
-- the fees.
payout :
    (v v₁ v₂ v₃ fees cb_total out reward minted : ℕ)
    → v₁ + fees ≤ v + 0
    → v₂ ≤ v₁ + out
    → cb_total ≡ out
    → cb_total ≤ reward + fees
    → cb_total - fees ≡ minted
    → v₂ ≡ v₃
    → (v₃ ≤ v + minted) × (minted ≤ reward)
payout v v₁ v₂ v₃ fees cb_total out reward minted a b c d e f = omega arith

module _ (p : Primitives) (params : Params) where
  -- An accepted transaction takes its fee out of the set's value.
  pub value-apply_tx :
      (tx : Transaction) (height fee : ℕ) (u : Utxos)
      → check_tx p params (lookup_in u) tx height tt ≡ ok fee
      → value (apply_tx p params tx height u) + fee ≤ value u
  unfolding apply_tx
  value-apply_tx tx height fee u h =
      let a = check_tx-Accepted p params u tx height fee h in
      omega (
        arith,
        value-spend_inputs u tx.body.inputs _ a.distinct a.provided,
        value-add_outputs (txid p.digest tx.body) height false 0 tx.body.outputs
            (spend_inputs tx.body.inputs u),
      )

  pub value-apply_txs :
      (height : ℕ) (txs : List Transaction) (fees : ℕ) (u : Utxos) (fees' : ℕ) (u' : Utxos)
      → apply_txs p params height txs fees u ≡ ok (fees', u')
      → value u' + fees' ≤ value u + fees
  unfolding apply_txs
  value-apply_txs height [] fees u fees' u' h =
      let e = ok-injective h in rw (← ap (λ t. t.0) e, ← ap (λ t. t.1) e) (omega arith)
  value-apply_txs height (tx ∷ txs) fees u fees' u' h =
      let (_, h₁) = >>-eq-ok (refuse_if (is_coinbase tx.body) _) _ h in
      let (fee, c, h₂) = >>=-eq-ok (check_tx p params (lookup_in u) tx height tt) _ h₁ in
      let (sum, a, h₃) = >>=-eq-ok (ok_or (checked_add fees fee) _) _ h₂ in
      let (e, _) = checked_add-eq-some fees fee (ok_or-eq-ok _ _ a) in
      omega (
        arith,
        value-apply_txs height txs sum (apply_tx p params tx height u) fees' u' h₃,
        value-apply_tx tx height fee u c,
      )

  -- The coinbase pays at most the reward and the fees.
  check_payout-eq-ok :
      (cb : Transaction) (height fees t : ℕ)
      → check_payout p params cb height fees ≡ ok t
      → (t ≡ output_sum cb.body.outputs) × (t ≤ block_reward height + fees)
  unfolding check_payout
  check_payout-eq-ok cb height fees t h =
      let (cb_total, s, h₁) = >>=-eq-ok (sum_outputs 0 cb.body.outputs) _ h in
      let (allowed, a, h₂) = >>=-eq-ok (ok_or (checked_add (block_reward height) fees) _) _ h₁ in
      let (le, h₃) = >>-eq-ok (refuse_if (ltb allowed cb_total) _) _ h₂ in
      let (e, _) = checked_add-eq-some (block_reward height) fees (ok_or-eq-ok _ _ a) in
      let (e', _) = sum_outputs-eq-ok 0 cb.body.outputs cb_total s in
      let test : ltb allowed cb_total ≡ false = refuse_if-eq-ok _ _ le in
      let last : cb_total ≡ t = ok-injective h₃ in (omega arith, ground arith)

  validate_txs-conserves :
      (txs : List Transaction) (height : ℕ) (u : Utxos) (minted : ℕ) (u' : Utxos)
      → validate_txs p params txs height u ≡ ok (minted, u')
      → (value u' ≤ value u + minted) × (minted ≤ block_reward height)
  unfolding validate_txs
  validate_txs-conserves [] height u minted u' h = absurd cc
  validate_txs-conserves (cb ∷ txs) height u minted u' h =
      let (_, h₁) = >>-eq-ok (check_coinbase cb height) _ h in
      let (_, h₂) = >>-eq-ok (check_unique [] _) _ h₁ in
      let (applied, a, h₃) = >>=-eq-ok (apply_txs p params height txs 0 u) _ h₂ in
      let (cb_total, c, h₄) = >>=-eq-ok (check_payout p params cb height applied.0) _ h₃ in
      let (pays, bounded) = check_payout-eq-ok cb height applied.0 cb_total c in
      let e = ok-injective h₄ in
      payout _ _ _ _ applied.0 _ _ (block_reward height) _
        (value-apply_txs height txs 0 u applied.0 applied.1 a)
        (value-add_outputs (txid p.digest cb.body) height true 0 cb.body.outputs applied.1) pays
        bounded (ap (λ t. t.0) e) (ap (λ t. value t.1) e)

  -- A block that is accepted at a height raises the value of the unspent outputs by at most what
  -- it reports as minted, and that is at most the block reward of the height.
  pub validate_block_txs-conserves :
      (block : Block) (height : ℕ) (u : Utxos) (minted : ℕ) (u' : Utxos)
      → validate_block_txs p params block height u ≡ ok (minted, u')
      → (value u' ≤ value u + minted) × (minted ≤ block_reward height)
  unfolding validate_block_txs
  validate_block_txs-conserves block height u minted u' h =
      validate_txs-conserves block.transactions height u minted u' h
