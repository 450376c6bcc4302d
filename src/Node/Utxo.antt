-- ===== src/Node/Utxo.antt =====
-- The set of unspent outputs of crates/node/src/chain.rs, and its changes by a transaction.
use summerpoem_cli.Prelude.{
  ℕ, suc, ◌+◌, ◌%◌, ◌^◌, ◌≡◌, ◌↔◌, Bool, true, false, List, [], ◌∷◌, ◌==◌, ◌&&◌, arith, ==_iff,
}
use summerpoem_cli.Prelude.Equality.{Eq, bytes_eq, bytes_eq_iff}
use summerpoem_cli.Prelude.Dictionary.{Dictionary, insert, remove, total}
use summerpoem_cli.Core.Hash.{Hash256}
use summerpoem_cli.Core.Tx.{OutPoint, TxInput, TxOutput}
pub mod Value

unfoldable pub outpoint_eq : OutPoint → OutPoint → Bool
outpoint_eq a b = bytes_eq a.txid b.txid && a.vout == b.vout

pub outpoint_eq_iff : (a b : OutPoint) → (outpoint_eq a b ≡ true) ↔ (a ≡ b)
unfolding outpoint_eq
outpoint_eq_iff a b = ground (arith, bytes_eq_iff a.txid b.txid)

pub outpoint_eq-flip : (a b : OutPoint) → outpoint_eq a b ≡ false → outpoint_eq b a ≡ false
outpoint_eq-flip a b h = ground (arith, outpoint_eq_iff a b, outpoint_eq_iff b a)

instance abbrev pub outpoint_Eq : Eq OutPoint
outpoint_Eq = record { beq = outpoint_eq; beq_iff = outpoint_eq_iff }

pub record Utxo : Type 0 where
  pub output : TxOutput
  pub height : ℕ
  pub coinbase : Bool

abbrev pub Utxos : Type 0
Utxos = Dictionary OutPoint Utxo

abbrev pub amount_of : Utxo → ℕ
amount_of u = u.output.amount

-- The value of all unspent outputs.
abbrev pub value : Utxos → ℕ
value u = total amount_of u

-- `for input in &tx.body.inputs { utxos.remove(&input.prevout) }`
unfoldable pub spend_inputs : List TxInput → Utxos → Utxos
spend_inputs [] u = u
spend_inputs (i ∷ inputs) u = spend_inputs inputs (remove i.prevout u)

-- The loop over `outputs.iter().enumerate()`, from index `vout` on.
unfoldable pub add_outputs : Hash256 → ℕ → Bool → ℕ → List TxOutput → Utxos → Utxos
add_outputs txid height coinbase vout [] u = u
add_outputs txid height coinbase vout (o ∷ outputs) u =
    add_outputs txid height coinbase (suc vout) outputs (
      insert (record { txid = txid; vout = vout % 2 ^ 32 })
        (record { output = o; height = height; coinbase = coinbase }) u)
