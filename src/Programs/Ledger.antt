-- ===== src/Programs/Ledger.antt =====
-- crates/cli/src/wallet.rs, what the dashboard shows of the balances, and the amounts that both
-- take from the chain's unspent outputs.
use summerpoem_cli.Prelude.{
  ℕ, ◌+◌, ◌-◌, ◌%◌, Bool, true, false, Option, none, some, List, [], ◌∷◌, leb, ◌&&◌, ◌||◌, not,
  if◌then◌else◌,
}
use summerpoem_cli.Prelude.Result.{Result, ok, err}
use summerpoem_cli.Prelude.Checked.{u64_mod}
use summerpoem_cli.Core.Tx.{OutPoint, SigScheme, Lock, p2pkh, timelock, Transaction}
use summerpoem_cli.Crypto.{Primitives}
use summerpoem_cli.Crypto.Keypair.{Signer}
use summerpoem_cli.Node.Utxo.{Utxo, Utxos}
use summerpoem_cli.Node.Chain.{ChainState}
use summerpoem_cli.Node.Chain.Queries.{chain_height}
use summerpoem_cli.Wallet.{
  WalletError, Wallet, OwnedUtxo, KeyId, id_eq, id_of_lock, owned_ids, balances, build_send,
}
pub mod Spend
pub mod Valid

-- `contains` of a vector of ids.
unfoldable pub has_id : KeyId → List KeyId → Bool
has_id id [] = false
has_id id (i ∷ ids) = id_eq id i || has_id id ids

unfoldable pub owned_entry : OutPoint → Utxo → OwnedUtxo
owned_entry op u = record {
  outpoint = op;
  output = u.output;
  coinbase = u.coinbase;
  height = u.height;
}

-- `owned_utxos`, over the ids and the unspent outputs, in the order in which the process that runs
-- it goes through its map.
unfoldable pub owned_utxos : List KeyId → Utxos → List OwnedUtxo
unfolding has_id owned_entry
owned_utxos ids [] = []
owned_utxos ids ((op, u) ∷ utxos) =
    let rest = owned_utxos ids utxos in
    if has_id (id_of_lock u.output.lock) ids then owned_entry op u ∷ rest else rest

-- Whether an unspent output may be spent at a height, as the dashboard tests it.
unfoldable pub unlocked_at : Lock → ℕ → Bool
unlocked_at (timelock scheme pkh height) next_height = leb height next_height
unlocked_at (p2pkh scheme pkh) next_height = true

unfoldable pub is_spendable : Utxo → ℕ → ℕ → Bool
unfolding unlocked_at
is_spendable u next_height maturity =
    (not u.coinbase || leb ((u.height + maturity) % u64_mod) next_height)
    && unlocked_at u.output.lock next_height

-- The loop of `balances_for`, from the sums so far on.
unfoldable pub add_for : List KeyId → ℕ → ℕ → Utxos → ℕ → ℕ → ℕ × ℕ
unfolding has_id is_spendable
add_for ids next_height maturity [] spendable total = (spendable, total)
add_for ids next_height maturity ((op, u) ∷ utxos) spendable total =
    let skipped = add_for ids next_height maturity utxos spendable total in
    let added =
      add_for ids next_height maturity utxos
        (if is_spendable u next_height maturity
          then (spendable + u.output.amount) % u64_mod
          else spendable)
        ((total + u.output.amount) % u64_mod) in
    if not (has_id (id_of_lock u.output.lock) ids) then skipped else added

unfoldable pub balances_for : ChainState → List KeyId → ℕ × ℕ
unfolding add_for
balances_for chain owned =
    let (spendable, total) =
      add_for owned (chain_height chain + 1) chain.params.coinbase_maturity chain.utxos 0 0 in
    (spendable, (total + (u64_mod - spendable)) % u64_mod)

module _ (p : Primitives) (k : Signer) where
  unfoldable pub balance : Wallet → ChainState → ℕ
  unfolding owned_utxos
  balance wallet state =
      let (spendable, pending) =
        balances (owned_utxos (owned_ids p k wallet) state.utxos) (chain_height state + 1)
          state.params.coinbase_maturity in
      spendable

  unfoldable pub send :
      Wallet → ChainState → SigScheme → List ℕ → ℕ → ℕ → Result WalletError Transaction
  unfolding owned_utxos
  send wallet state to_scheme to_pkh amount fee =
      build_send p k wallet (owned_utxos (owned_ids p k wallet) state.utxos)
        (chain_height state + 1) state.params.coinbase_maturity to_scheme to_pkh amount fee
