-- ===== src/Programs/Light/Pays.antt =====
-- What the light wallet of crates/wallet-cli shows and pays through a node with a valid chain.
use summerpoem_cli.Prelude.{
  ℕ, ◌+◌, ◌<◌, ◌≤◌, ◌≡◌, refl, sym, ap, ◌∙◌, arith, inl, inr, Bool, true, not, List, [], ◌∷◌, All,
  Bool-cases,
}
use mathlib.Core.Path.{subst}
use summerpoem_cli.Prelude.Lists.{filter_by}
use summerpoem_cli.Prelude.Result.{ok, ◌>>=◌}
use summerpoem_cli.Prelude.Checked.{u64_mod}
use summerpoem_cli.Core.Hex.{Hex}
use summerpoem_cli.Core.Tx.{OutPoint, SigScheme, Transaction}
use summerpoem_cli.Crypto.{Primitives}
use summerpoem_cli.Crypto.Keypair.{Signer, IsSigner}
use summerpoem_cli.Crypto.Address.{Bech32}
use summerpoem_cli.Node.Utxo.{Utxo, Utxos}
use summerpoem_cli.Node.Chain.{ChainState}
use summerpoem_cli.Node.Chain.Queries.{chain_height}
use summerpoem_cli.Node.Chain.Invariant.{IsValid}
use summerpoem_cli.Node.Mempool.{validate_standalone_tx}
use summerpoem_cli.Wallet.{Wallet, OwnedUtxo, KeyId, id_of_lock, spendable, owned_ids}
use summerpoem_cli.Wallet.Select.{worth}
use summerpoem_cli.Wallet.Balances.{balances-worth}
use summerpoem_cli.Programs.Json.{JsonParser}
use summerpoem_cli.Programs.Ledger.{has_id, owned_entry, owned_utxos, balances_for, balance, send}
use summerpoem_cli.Programs.Ledger.Spend.{balances_for-balances}
use summerpoem_cli.Programs.Ledger.Valid.{small, send-validate_standalone_tx}
use summerpoem_cli.Programs.Light.{hrp_for, recipient, lift_error, query_balance, payment}
use summerpoem_cli.Programs.Light.Same.{IsPlainLock, node_of, Connects, payment-send}

-- The same unspent outputs, listed in another order.
pub data Reordered : Utxos → Utxos → Type 0 where
  same : (u : Utxos) → Reordered u u
  keep :
      {u u' : Utxos} (op : OutPoint) (v : Utxo)
      → Reordered u u'
      → Reordered ((op, v) ∷ u) ((op, v) ∷ u')
  swap :
      (op op' : OutPoint) (v v' : Utxo) (u : Utxos)
      → Reordered ((op, v) ∷ (op', v') ∷ u) ((op', v') ∷ (op, v) ∷ u)
  steps : {u u' u'' : Utxos} → Reordered u u' → Reordered u' u'' → Reordered u u''

-- Another process with the chain of a node: its map of unspent outputs iterates in an order of its
-- own.
pub record SameChain (s s' : ChainState) : Type 0 where
  pub same_height : chain_height s' ≡ chain_height s
  pub same_params : s'.params ≡ s.params
  pub same_utxos : Reordered s.utxos s'.utxos

worth-keep :
    (f : OwnedUtxo → Bool) (o : OwnedUtxo) (us us' : List OwnedUtxo)
    → worth (filter_by f us) ≡ worth (filter_by f us')
    → worth (filter_by f (o ∷ us)) ≡ worth (filter_by f (o ∷ us'))
unfolding worth filter_by
worth-keep f o us us' e = ground arith

worth-swap :
    (f : OwnedUtxo → Bool) (a b : OwnedUtxo) (us : List OwnedUtxo)
    → worth (filter_by f (a ∷ b ∷ us)) ≡ worth (filter_by f (b ∷ a ∷ us))
unfolding worth filter_by
worth-swap f a b us = ground arith

-- What owned outputs are worth does not depend on their order.
worth-Reordered :
    (f : OwnedUtxo → Bool) (ids : List KeyId) {u u' : Utxos}
    → Reordered u u'
    → worth (filter_by f (owned_utxos ids u)) ≡ worth (filter_by f (owned_utxos ids u'))
unfolding owned_utxos
worth-Reordered f ids (same u) = refl
worth-Reordered f ids (keep op v r) =
    let ih = worth-Reordered f ids r in
    elim (Bool-cases (has_id (id_of_lock v.output.lock) ids)) [
      | inl e ↦ rw e (worth-keep f (owned_entry op v) _ _ ih)
      | inr e ↦ rw e ih
    ]
worth-Reordered f ids (swap op op' v v' u) =
    elim (Bool-cases (has_id (id_of_lock v.output.lock) ids)) [
      | inl e ↦ elim (Bool-cases (has_id (id_of_lock v'.output.lock) ids)) [
        | inl e' ↦ rw (e, e') (worth-swap f (owned_entry op v) (owned_entry op' v') _)
        | inr e' ↦ rw (e, e') refl
      ]
      | inr e ↦ rw e refl
    ]
worth-Reordered f ids (steps r r') = worth-Reordered f ids r ∙ worth-Reordered f ids r'

filter_by-everything : (us : List OwnedUtxo) → filter_by (λ u. true) us ≡ us
unfolding filter_by
filter_by-everything [] = refl
filter_by-everything (u ∷ us) = ap (λ l. u ∷ l) (filter_by-everything us)

worth-same :
    (ids : List KeyId) {u u' : Utxos}
    → Reordered u u'
    → worth (owned_utxos ids u) ≡ worth (owned_utxos ids u')
worth-same ids {u} {u'} r =
    ap worth (sym (filter_by-everything (owned_utxos ids u)))
    ∙ worth-Reordered (λ x. true) ids r
    ∙ ap worth (filter_by-everything (owned_utxos ids u'))

-- Balances do not depend on the order.
balances_for-SameChain :
    (ids : List KeyId) (s s' : ChainState)
    → SameChain s s'
    → worth (owned_utxos ids s.utxos) < u64_mod
    → balances_for s' ids ≡ balances_for s ids
balances_for-SameChain ids s s' c b =
    let n = chain_height s + 1 in
    let m = s.params.coinbase_maturity in
    let b' : worth (owned_utxos ids s'.utxos) < u64_mod =
      omega (arith, worth-same ids c.same_utxos) in
    let here = balances-worth n m (owned_utxos ids s.utxos) b in
    let there = balances-worth n m (owned_utxos ids s'.utxos) b' in
    let spent = worth-Reordered (λ u. spendable u n m) ids c.same_utxos in
    let held = worth-Reordered (λ u. not (spendable u n m)) ids c.same_utxos in
    balances_for-balances s' ids
    ∙ rw (c.same_height, c.same_params) (there ∙ sym (here ∙ (λ i. (spent i, held i))))
    ∙ sym (balances_for-balances s ids)

module _ (p : Primitives) (k : Signer) (law : IsSigner p k) (hex : Hex) (parse : JsonParser)
    (w : Wallet) (s : ChainState) (v : IsValid s) where
  -- A light wallet asks a node with a valid chain; another program has the same chain, its unspent
  -- outputs in an order of its own. The light wallet shows the balances that this program shows, and
  -- whatever part of the spendable one is sent to an address with a fee, it builds a transaction that
  -- the node validates for its next block, with exactly that fee. The other program's own command
  -- does so for its chain, perhaps from other outputs. No output of the wallet is locked
  -- up to a height, the wallet is of the chain's network, each side's parser reads the other's text,
  -- the hex crate reads back what it writes, the numbers are in the ranges of their types, the amount
  -- is not zero, and the signature crates give keys and signatures of their lengths, and signatures
  -- that verify.
  pub payment-validate_standalone_tx :
      (local : ChainState)
      → IsValid local
      → SameChain s local
      → Connects hex parse (owned_ids p k w) s
      → All (λ u. IsPlainLock u.output.lock) (owned_utxos (owned_ids p k w) s.utxos)
      → hrp_for w.file.network ≡ ok s.params.address_hrp
      → (b : Bech32) (to : List ℕ) (scheme : SigScheme) (pkh : List ℕ) (amount fee : ℕ)
      → recipient b s.params.address_hrp to ≡ ok (scheme, pkh)
      → 0 < amount
      → amount + fee ≤ (balances_for local (owned_ids p k w)).0
      → (query_balance p k hex parse (node_of hex parse s) w
          ≡ ok (
            (balances_for local (owned_ids p k w)).0,
            (balances_for local (owned_ids p k w)).1,
            chain_height s,
          ))
        × (tx : Transaction) × (payment p k hex parse (node_of hex parse s) b w to amount fee
            ≡ ok tx)
        × (validate_standalone_tx p s tx ≡ ok fee)
        × (tx' : Transaction) × (send p k w local scheme pkh amount fee ≡ ok tx')
        × (validate_standalone_tx p local tx' ≡ ok fee)
  unfolding ◌>>=◌ lift_error balance
  payment-validate_standalone_tx local v' c connects plain hrp b to scheme pkh amount fee known a
        enough =
      let ids = owned_ids p k w in
      let (shown, paid) = payment-send p k hex parse w s connects plain hrp b to amount fee in
      let same_shown = balances_for-SameChain ids s local c (small p k law s v w) in
      let spendable_shown : (balances_for local ids).0 ≡ balance p k w s =
        ap (λ r. r.0) (same_shown ∙ balances_for-balances s ids) in
      let (tx, built, valid) =
        send-validate_standalone_tx p k law s v w scheme pkh amount fee a
          (subst (λ n. amount + fee ≤ n) spendable_shown enough) in
      let spendable_local : (balances_for local ids).0 ≡ balance p k w local =
        ap (λ r. r.0) (balances_for-balances local ids) in
      let (tx', built', valid') =
        send-validate_standalone_tx p k law local v' w scheme pkh amount fee a
          (subst (λ n. amount + fee ≤ n) spendable_local enough) in
      (
        subst
            (λ r.
              query_balance p k hex parse (node_of hex parse s) w ≡ ok (r.0, r.1, chain_height s))
            (sym same_shown) shown,
        tx,
        paid ∙ rw (known, built) refl,
        valid,
        tx',
        built',
        valid',
      )
