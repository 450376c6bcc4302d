-- ===== src/Programs/Light.antt =====
-- The light wallet of crates/wallet-cli: `hrp_for`, `query_balance` and `do_send` of src/main.rs and
-- `submit_tx` of src/rpc.rs; and the send command of crates/cli/src/main.rs. What `anyhow` reports is
-- the case of an error.
use summerpoem_cli.Prelude.{
  ℕ, ◌+◌, ◌%◌, Bool, true, false, Option, none, some, List, [], ◌∷◌, if◌then◌else◌,
}
use summerpoem_cli.Prelude.Text.{bytes}
use summerpoem_cli.Prelude.Equality.{bytes_eq}
use summerpoem_cli.Prelude.Result.{Result, ok, err, ◌>>=◌, ok_or}
use summerpoem_cli.Prelude.Checked.{u64_mod}
use summerpoem_cli.Core.Hex.{Hex}
use summerpoem_cli.Core.Params.{Params, mainnet_params, regtest_params}
use summerpoem_cli.Core.Tx.{SigScheme, Transaction, encode_tx}
use summerpoem_cli.Crypto.{Primitives}
use summerpoem_cli.Crypto.Keypair.{Signer}
use summerpoem_cli.Crypto.Address.{Bech32, address_decode, scheme_for_version}
use summerpoem_cli.Node.Error.{ValidationError}
use summerpoem_cli.Node.Chain.{ChainState}
use summerpoem_cli.Node.Mempool.{validate_standalone_tx}
use summerpoem_cli.Wallet.{WalletError, Wallet, owned_ids, balances, build_send}
use summerpoem_cli.Programs.Amount.{AmountError, parse_sump}
use summerpoem_cli.Programs.Json.{Json, JsonParser, get_field, as_str}
use summerpoem_cli.Programs.Rpc.{
  ClientError, unexpected_reply, rejected_tx, UtxoReply, parse_reply, fetch_utxos,
}
use summerpoem_cli.Programs.Ledger.{send}
pub mod Same
pub mod Pays

pub data SendError : Type 0 where
  unknown_network invalid_address : SendError
  unsupported_version : ℕ → SendError
  amount_error : AmountError → SendError
  client_error : ClientError → SendError
  wallet_error : WalletError → SendError
  validation_error : ValidationError → SendError

unfoldable pub hrp_for : List ℕ → Result SendError (List ℕ)
hrp_for network =
    if bytes_eq network (bytes "mainnet")
    then ok mainnet_params.address_hrp
    else if bytes_eq network (bytes "regtest")
    then ok regtest_params.address_hrp
    else err unknown_network

-- `?` on an error of another type.
unfoldable pub lift_error {ℓ} : {E F A : Type ℓ} → (E → F) → Result E A → Result F A
lift_error f (ok a) = ok a
lift_error f (err e) = err (f e)

-- The key hash and the scheme of an address.
unfoldable pub recipient : Bech32 → List ℕ → List ℕ → Result SendError (SigScheme × List ℕ)
recipient b hrp to = do
  (version, pkh) ← ok_or (address_decode b hrp to) invalid_address
  scheme ← ok_or (scheme_for_version version) (unsupported_version version)
  ok (scheme, pkh)

-- A call of the node's RPC by its path and body.
abbrev pub Post : Type 0
Post = List ℕ → List ℕ → Result ClientError (List ℕ)

unfoldable pub submitted : Option (List ℕ) → Option (List ℕ) → Result ClientError (List ℕ)
submitted (some txid) error = ok txid
submitted none (some error) = err (rejected_tx error)
submitted none none = err unexpected_reply

unfoldable pub submit_tx : JsonParser → Post → List ℕ → Result ClientError (List ℕ)
unfolding parse_reply submitted
submit_tx parse post tx_hex = do
  raw ← post (bytes "/api/submit") tx_hex
  v ← parse_reply (parse raw)
  submitted (as_str (get_field (bytes "txid") v)) (as_str (get_field (bytes "error") v))

module _ (p : Primitives) (k : Signer) (hex : Hex) (parse : JsonParser) (post : Post) where
  unfoldable pub query_balance : Wallet → Result ClientError (ℕ × ℕ × ℕ)
  unfolding fetch_utxos
  query_balance w = do
    reply ← fetch_utxos hex parse post (owned_ids p k w)
    let (spendable, pending) = balances reply.utxos ((reply.height + 1) % u64_mod) reply.maturity
    ok (spendable, pending, reply.height)

  -- `do_send` up to the transaction that it submits.
  unfoldable pub payment : Bech32 → Wallet → List ℕ → ℕ → ℕ → Result SendError Transaction
  unfolding hrp_for recipient lift_error fetch_utxos
  payment b w to amount fee = do
    hrp ← hrp_for w.file.network
    (scheme, pkh) ← recipient b hrp to
    reply ← lift_error client_error (fetch_utxos hex parse post (owned_ids p k w))
    lift_error wallet_error (
        build_send p k w reply.utxos ((reply.height + 1) % u64_mod) reply.maturity scheme pkh amount
          fee)

  unfoldable pub do_send : Bech32 → Wallet → List ℕ → ℕ → ℕ → Result SendError (List ℕ)
  unfolding payment submit_tx
  do_send b w to amount fee = do
    tx ← payment b w to amount fee
    lift_error client_error (submit_tx parse post (hex.encode_hex (encode_tx tx)))

module _ (p : Primitives) (k : Signer) where
  -- The transaction that the send command writes into the mempool's directory.
  unfoldable pub send_command :
      Bech32 → Wallet → ChainState → List ℕ → List ℕ → ℕ → Result SendError Transaction
  unfolding recipient lift_error send
  send_command b w state to amount_text fee = do
    (scheme, pkh) ← recipient b state.params.address_hrp to
    amount ← lift_error amount_error (parse_sump amount_text)
    tx ← lift_error wallet_error (send p k w state scheme pkh amount fee)
    fee' ← lift_error validation_error (validate_standalone_tx p state tx)
    ok tx
