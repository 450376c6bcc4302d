-- ===== src/Node/CheckTx.antt =====
-- `check_tx` of crates/node/src/chain.rs: one transaction that is no coinbase, against a lookup of
-- unspent outputs. The lookup is an `FnMut`: it takes and returns a state.
use summerpoem_cli.Prelude.{
  ℕ, suc, ◌+◌, ◌-◌, ◌%◌, ◌^◌, ◌≡◌, Bool, true, false, Option, none, some, List, [], ◌∷◌, length,
  ltb, ◌==◌, not, ◌&&◌, ◌||◌, if◌then◌else◌,
}
use summerpoem_cli.Prelude.Result.{Result, ok, err, ◌>>=◌, ◌>>◌, refuse_if, ok_or}
use summerpoem_cli.Prelude.Checked.{checked_add, u64_mod}
use summerpoem_cli.Prelude.Equality.{bytes_eq}
use summerpoem_cli.Core.Tx.{
  OutPoint, Lock, p2pkh, timelock, lock_pkh, lock_scheme, TxInput, TxOutput, TxBody, Witness,
  Transaction, sighash,
}
use summerpoem_cli.Core.Params.{Params}
use summerpoem_cli.Crypto.{Primitives, pubkey_hash, verify}
use summerpoem_cli.Node.Error.{
  ValidationError, no_inputs, no_outputs, bad_coinbase_data, witness_mismatch, unknown_input,
  immature_coinbase, timelocked, wrong_pubkey, bad_signature, overflow, zero_output,
  insufficient_inputs,
}
use summerpoem_cli.Node.Utxo.{Utxo, outpoint_eq}
pub mod Inputs

abbrev pub Checked : Type 0 → Type 0
Checked A = Result ValidationError A

unfoldable pub is_empty {ℓ} : {A : Type ℓ} → List A → Bool
is_empty [] = true
is_empty (x ∷ xs) = false

-- `inputs[..i].iter().any(|b| b.prevout == a.prevout)`, over the inputs before, latest first.
unfoldable pub spent_before : OutPoint → List TxInput → Bool
spent_before a [] = false
spent_before a (b ∷ before) = outpoint_eq a b.prevout || spent_before a before

unfoldable pub check_distinct : List TxInput → List TxInput → Checked (Unit {0})
check_distinct before [] = ok tt
check_distinct before (a ∷ inputs) =
    let rest = check_distinct (a ∷ before) inputs in
    if spent_before a.prevout before then err (unknown_input a.prevout) else rest

unfoldable pub check_timelock : ℕ → Lock → Checked (Unit {0})
check_timelock height (p2pkh scheme pkh) = ok tt
check_timelock height (timelock scheme pkh lock_h) =
    refuse_if (ltb height lock_h) (timelocked lock_h)

unfoldable pub sum_outputs : ℕ → List TxOutput → Checked ℕ
sum_outputs acc [] = ok acc
sum_outputs acc (o ∷ outputs) = do
  refuse_if (o.amount == 0) zero_output
  acc' ← ok_or (checked_add acc o.amount) overflow
  sum_outputs acc' outputs

module _ (p : Primitives) (params : Params) where
  -- The checks of one input in the loop's body, once its output is found.
  unfoldable pub check_input : TxBody → ℕ → ℕ → Witness → Utxo → Checked (Unit {0})
  check_input body height i w utxo = do
    refuse_if (utxo.coinbase && ltb height ((utxo.height + params.coinbase_maturity) % u64_mod))
        immature_coinbase
    check_timelock height utxo.output.lock
    refuse_if (not (bytes_eq (pubkey_hash p w.pubkey) (lock_pkh utxo.output.lock))) wrong_pubkey
    refuse_if
        (not (
          verify p (lock_scheme utxo.output.lock) w.pubkey
            (sighash p.digest body (i % 2 ^ 32) utxo.output) w.signature))
        bad_signature

  module _ {S : Type 0} (lookup : OutPoint → S → Option Utxo × S) where
    -- The loop over the inputs from index `i` on. There are as many witnesses as inputs, so the
    -- last clause is not reached.
    unfoldable pub check_inputs : TxBody → ℕ → ℕ → List TxInput → List Witness → ℕ → S → Checked ℕ
    check_inputs body height i [] witnesses in_total s = ok in_total
    check_inputs body height i (input ∷ inputs) (w ∷ witnesses) in_total s =
        let (found, s') = lookup input.prevout s in
        do
          utxo ← ok_or found (unknown_input input.prevout)
          check_input body height i w utxo
          in_total' ← ok_or (checked_add in_total utxo.output.amount) overflow
          check_inputs body height (suc i) inputs witnesses in_total' s'
    check_inputs body height i (input ∷ inputs) [] in_total s = err witness_mismatch

    unfoldable pub check_tx : Transaction → ℕ → S → Checked ℕ
    check_tx tx height s = do
      refuse_if (is_empty tx.body.inputs) no_inputs
      refuse_if (is_empty tx.body.outputs) no_outputs
      refuse_if (not (is_empty tx.body.coinbase_data)) bad_coinbase_data
      refuse_if (not (length tx.witnesses == length tx.body.inputs)) witness_mismatch
      check_distinct [] tx.body.inputs
      in_total ← check_inputs tx.body height 0 tx.body.inputs tx.witnesses 0 s
      out_total ← sum_outputs 0 tx.body.outputs
      refuse_if (ltb in_total out_total) insufficient_inputs
      ok (in_total - out_total)
