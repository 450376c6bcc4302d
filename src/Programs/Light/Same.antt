-- ===== src/Programs/Light/Same.antt =====
-- The light wallet and the local commands on the same chain.
use summerpoem_cli.Prelude.{ℕ, ◌+◌, ◌%◌, ◌≡◌, refl, sym, ap, ◌∙◌, arith, List, [], ◌∷◌, map, All}
use summerpoem_cli.Prelude.Result.{ok, ◌>>=◌, >>=-congr}
use summerpoem_cli.Prelude.Checked.{u64_mod}
use summerpoem_cli.Core.Hex.{Hex, IsHex}
use summerpoem_cli.Core.Tx.{Lock, p2pkh, lock_scheme, lock_pkh}
use summerpoem_cli.Crypto.{Primitives}
use summerpoem_cli.Crypto.Keypair.{Signer}
use summerpoem_cli.Crypto.Address.{Bech32}
use summerpoem_cli.Node.Chain.{ChainState}
use summerpoem_cli.Node.Chain.Queries.{chain_height}
use summerpoem_cli.Wallet.{Wallet, OwnedUtxo, KeyId, owned_ids}
use summerpoem_cli.Programs.Json.{JsonParser, Reads}
use summerpoem_cli.Programs.Rpc.{
  wanted_keys, key_items, request_json, reply_json, rpc_utxos, fetch_utxos,
}
use summerpoem_cli.Programs.Rpc.Reply.{KeyFits, relocked}
use summerpoem_cli.Programs.Rpc.Fetch.{ChainFits, fetch_utxos-rpc_utxos}
use summerpoem_cli.Programs.Ledger.{owned_utxos, balances_for, send}
use summerpoem_cli.Programs.Ledger.Spend.{balances_for-balances}
use summerpoem_cli.Programs.Light.{
  wallet_error, Post, hrp_for, recipient, lift_error, query_balance, payment,
}

-- The lock has no height.
abbrev pub IsPlainLock : Lock → Type 0
IsPlainLock lock = lock ≡ p2pkh (lock_scheme lock) (lock_pkh lock)

relocked-same :
    (us : List OwnedUtxo) → All (λ u. IsPlainLock u.output.lock) us → map relocked us ≡ us
unfolding relocked
relocked-same [] h = refl
relocked-same (u ∷ us) (h, hs) =
    let same : relocked u ≡ u =
      ap (λ l. record u { output = record u.output { lock = l } }) (sym h) in
    rw (same, relocked-same us hs) refl

-- The RPC of a node with the chain.
abbrev pub node_of : Hex → JsonParser → ChainState → Post
node_of hex parse s path body = ok (rpc_utxos hex parse s body)

-- The node and the light wallet exchange texts that their parsers read.
pub record Connects (hex : Hex) (parse : JsonParser) (ids : List KeyId) (s : ChainState)
    : Type 0 where
  pub hex_law : IsHex hex
  pub request : Reads parse (request_json hex ids)
  pub reply : Reads parse (reply_json hex s (wanted_keys hex (key_items hex ids) []))
  pub ids_fit : All KeyFits ids
  pub chain_fits : ChainFits s

module _ (p : Primitives) (k : Signer) (hex : Hex) (parse : JsonParser) (w : Wallet)
    (s : ChainState) where
  fetched :
      Connects hex parse (owned_ids p k w) s
      → All (λ u. IsPlainLock u.output.lock) (owned_utxos (owned_ids p k w) s.utxos)
      → fetch_utxos hex parse (node_of hex parse s) (owned_ids p k w)
        ≡ ok (record {
          height = chain_height s;
          maturity = s.params.coinbase_maturity;
          utxos = owned_utxos (owned_ids p k w) s.utxos;
        })
  fetched c plain =
      fetch_utxos-rpc_utxos hex c.hex_law parse s (owned_ids p k w) c.request c.reply c.ids_fit
        c.chain_fits
      ∙ rw (relocked-same (owned_utxos (owned_ids p k w) s.utxos) plain) refl

  -- Where no output of the wallet is locked up to a height, the light wallet that asks a node with
  -- the chain shows the balances of the dashboard, and builds the transaction, or reports the error,
  -- of the payment from the local chain. The wallet is of the chain's network, each side's parser
  -- reads the other's text, the hex crate reads back what it writes, and the numbers are in the
  -- ranges of their types.
  pub payment-send :
      Connects hex parse (owned_ids p k w) s
      → All (λ u. IsPlainLock u.output.lock) (owned_utxos (owned_ids p k w) s.utxos)
      → hrp_for w.file.network ≡ ok s.params.address_hrp
      → (b : Bech32) (to : List ℕ) (amount fee : ℕ)
      → (query_balance p k hex parse (node_of hex parse s) w
          ≡ ok (
            (balances_for s (owned_ids p k w)).0,
            (balances_for s (owned_ids p k w)).1,
            chain_height s,
          ))
        × (payment p k hex parse (node_of hex parse s) b w to amount fee ≡ (
            recipient b s.params.address_hrp to >>= λ r.
            lift_error wallet_error (send p k w s r.0 r.1 amount fee)))
  unfolding query_balance payment send ◌>>=◌ lift_error
  payment-send c plain hrp b to amount fee =
      let got = fetched c plain in
      let small : (chain_height s + 1) % u64_mod ≡ chain_height s + 1 =
        omega (arith, c.chain_fits.height_fits) in
      (
        rw (got, small, balances_for-balances s (owned_ids p k w)) refl,
        rw hrp (>>=-congr (recipient b s.params.address_hrp to) (λ r. rw (got, small) refl)),
      )
