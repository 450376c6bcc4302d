-- ===== src/Programs/Ledger/Valid.antt =====
-- What the balance command shows can be spent by the send command.
use summerpoem_cli.Prelude.{ℕ, ◌+◌, ◌<◌, ◌≤◌, ◌≡◌, refl, sym, ap, ◌∙◌, arith, false, List, [], ◌∷◌}
use summerpoem_cli.Prelude.Result.{ok, ◌>>◌, refuse_if}
use summerpoem_cli.Prelude.Checked.{u64_mod}
use summerpoem_cli.Core.Emission.Supply.{issued-le-supply_cap}
use summerpoem_cli.Core.Tx.{SigScheme, TxInput, Transaction, is_coinbase}
use summerpoem_cli.Crypto.{Primitives}
use summerpoem_cli.Crypto.Keypair.{Signer, IsSigner}
use summerpoem_cli.Node.CheckTx.{is_empty}
use summerpoem_cli.Node.CheckTx.Inputs.{check_tx-Accepted}
use summerpoem_cli.Node.Chain.{ChainState}
use summerpoem_cli.Node.Chain.Queries.{chain_height}
use summerpoem_cli.Node.Chain.Invariant.{IsValid}
use summerpoem_cli.Node.Mempool.{validate_standalone_tx}
use summerpoem_cli.Node.Mempool.Admission.{validate_standalone_tx-check_tx}
use summerpoem_cli.Wallet.{Wallet, owned_ids, candidates}
use summerpoem_cli.Wallet.Balances.{balances-worth}
use summerpoem_cli.Wallet.Select.{worth}
use summerpoem_cli.Wallet.Payment.{build_send-check_tx}
use summerpoem_cli.Programs.Ledger.{owned_utxos, balance, send}
use summerpoem_cli.Programs.Ledger.Spend.{
  worth-owned_utxos, worth-candidates, owned_utxos-IsKnown, owned_utxos-IsDistinct, Unique-IsMap,
}

not-is_coinbase :
    (inputs : List TxInput) (tx : Transaction)
    → tx.body.inputs ≡ inputs
    → is_empty inputs ≡ false
    → is_coinbase tx.body ≡ false
unfolding is_coinbase is_empty
not-is_coinbase [] tx e h = cc
not-is_coinbase (i ∷ inputs) tx e h = rw e refl

module _ (p : Primitives) (k : Signer) (law : IsSigner p k) (s : ChainState) (v : IsValid s) where
  -- The outputs of a valid chain are worth less than 2^64.
  pub small : (w : Wallet) → worth (owned_utxos (owned_ids p k w) s.utxos) < u64_mod
  small w =
      let backed = v.backs.backed in
      let issued = v.backs.issued_bound in
      omega (arith, worth-owned_utxos (owned_ids p k w) s.utxos, issued-le-supply_cap _)

  balance-worth :
      (w : Wallet)
      → balance p k w s
        ≡ worth (
            candidates p k w
              (owned_utxos (owned_ids p k w) s.utxos)
              (chain_height s + 1)
              s.params.coinbase_maturity)
  unfolding balance
  balance-worth w =
      ap (λ r. r.0)
        (balances-worth (chain_height s + 1) s.params.coinbase_maturity
          (owned_utxos (owned_ids p k w) s.utxos) (small w))
      ∙ sym (worth-candidates p k w s.utxos (chain_height s + 1) s.params.coinbase_maturity)

  -- On a valid chain, whatever part of the balance a wallet shows is sent with a fee: the command
  -- builds a transaction that the chain validates for its next block, with exactly that fee. The
  -- amount is not zero, and the signature crates give keys and signatures of their lengths, and
  -- signatures that verify.
  pub send-validate_standalone_tx :
      (w : Wallet) (to_scheme : SigScheme) (to_pkh : List ℕ) (amount fee : ℕ)
      → 0 < amount
      → amount + fee ≤ balance p k w s
      → (tx : Transaction) × (send p k w s to_scheme to_pkh amount fee ≡ ok tx)
        × (validate_standalone_tx p s tx ≡ ok fee)
  unfolding send refuse_if ◌>>◌
  send-validate_standalone_tx w to_scheme to_pkh amount fee a enough =
      let unique = Unique-IsMap s.utxos v.backs.unique in
      let ids = owned_ids p k w in
      let (tx, built, checked) =
        build_send-check_tx p k law s.params w s.utxos (chain_height s + 1)
          (owned_utxos ids s.utxos) to_scheme to_pkh amount fee
          (owned_utxos-IsKnown ids s.utxos unique) (owned_utxos-IsDistinct ids s.utxos unique)
          (small w) a (rw (← balance-worth w) enough) in
      let accepted = check_tx-Accepted p s.params s.utxos tx (chain_height s + 1) fee checked in
      (
        tx,
        built,
        validate_standalone_tx-check_tx p s tx
            ∙ rw (not-is_coinbase tx.body.inputs tx refl accepted.has_inputs) checked,
      )
