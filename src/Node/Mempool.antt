-- ===== src/Node/Mempool.antt =====
-- crates/node/src/mempool.rs: the pool of unconfirmed transactions, with the index of the outputs
-- that they spend. `validate_standalone_tx` is the method of `ChainState` that admits into it.
use summerpoem_cli.Prelude.{
  ℕ, suc, ◌+◌, ◌-◌, ◌*◌, ◌≡◌, Bool, true, false, Option, none, some, List, [], ◌∷◌, length, map,
  ltb, ◌&&◌, ◌||◌, not, if◌then◌else◌,
}
use summerpoem_cli.Prelude.Result.{Result, ok, err, ◌>>=◌, ◌>>◌, refuse_if}
use summerpoem_cli.Prelude.Equality.{bytes_Eq}
use summerpoem_cli.Prelude.Dictionary.{Dictionary, get, insert, remove, contains_key}
use summerpoem_cli.Core.Hash.{Hash256}
use summerpoem_cli.Core.Tx.{OutPoint, TxInput, Transaction, txid, is_coinbase, size}
use summerpoem_cli.Core.Block.{Block}
use summerpoem_cli.Crypto.{Primitives}
use summerpoem_cli.Node.Error.{ValidationError, no_inputs}
use summerpoem_cli.Node.Utxo.{Utxo, Utxos, outpoint_eq, outpoint_Eq}
use summerpoem_cli.Node.CheckTx.{Checked, check_tx}
use summerpoem_cli.Node.Chain.{ChainState}
use summerpoem_cli.Node.Chain.Queries.{chain_height}
pub mod Admission
pub mod Index
pub mod Invariant
pub mod Revalidation

abbrev pub min_relay_fee : ℕ
min_relay_fee = 1000

abbrev pub min_fee_per_byte : ℕ
min_fee_per_byte = 1

abbrev pub max_mempool_bytes : ℕ
max_mempool_bytes = 64 * 1024 * 1024

pub data MempoolError : Type 0 where
  duplicate conflict : MempoolError
  low_fee : ℕ → MempoolError
  full : MempoolError
  invalid : ValidationError → MempoolError

pub record Mempool : Type 0 where
  pub txs : Dictionary Hash256 Transaction
  pub spends : Dictionary OutPoint Hash256
  pub bytes : ℕ

unfoldable pub contains : OutPoint → List OutPoint → Bool
contains op [] = false
contains op (o ∷ ops) = outpoint_eq op o || contains op ops

-- The closure of `validate_standalone_tx`, over the outputs that it has handed out.
unfoldable pub lookup_once : Utxos → OutPoint → List OutPoint → Option Utxo × List OutPoint
lookup_once u op spent = if contains op spent then (none, spent) else (get op u, op ∷ spent)

-- `MIN_RELAY_FEE.max(size as u64 * MIN_FEE_PER_BYTE)`
unfoldable pub needed_fee : ℕ → ℕ
needed_fee size =
    if ltb min_relay_fee (size * min_fee_per_byte) then size * min_fee_per_byte else min_relay_fee

unfoldable pub any_spent : List TxInput → Dictionary OutPoint Hash256 → Bool
any_spent [] spends = false
any_spent (i ∷ inputs) spends = contains_key i.prevout spends || any_spent inputs spends

unfoldable pub index_inputs :
    List TxInput → Hash256 → Dictionary OutPoint Hash256 → Dictionary OutPoint Hash256
index_inputs [] id spends = spends
index_inputs (i ∷ inputs) id spends = index_inputs inputs id (insert i.prevout id spends)

unfoldable pub unindex_inputs :
    List TxInput → Dictionary OutPoint Hash256 → Dictionary OutPoint Hash256
unindex_inputs [] spends = spends
unindex_inputs (i ∷ inputs) spends = unindex_inputs inputs (remove i.prevout spends)

-- The removal of a transaction that was found, or not, under its id.
unfoldable pub drop_found : Hash256 → Mempool → Option Transaction → Mempool
drop_found id pool none = pool
drop_found id pool (some tx) = record {
  txs = remove id pool.txs;
  spends = unindex_inputs tx.body.inputs pool.spends;
  bytes = pool.bytes - size tx;
}

-- `Mempool::remove`
unfoldable pub remove_tx : Hash256 → Mempool → Mempool
remove_tx id pool = drop_found id pool (get id pool.txs)

unfoldable pub remove_conflict : Option Hash256 → Mempool → Mempool
remove_conflict none pool = pool
remove_conflict (some id) pool = remove_tx id pool

unfoldable pub remove_conflicts : List TxInput → Mempool → Mempool
remove_conflicts [] pool = pool
remove_conflicts (i ∷ inputs) pool =
    remove_conflicts inputs (remove_conflict (get i.prevout pool.spends) pool)

unfoldable pub keep_valid : Hash256 → Mempool → Checked ℕ → Mempool
keep_valid id pool (ok fee) = pool
keep_valid id pool (err e) = remove_tx id pool

-- The tests of `Mempool::insert` that follow the validation, by its result.
unfoldable pub check_fee : Transaction → Mempool → Checked ℕ → Result MempoolError ℕ
check_fee tx pool (err e) = err (invalid e)
check_fee tx pool (ok fee) =
    if ltb fee (needed_fee (size tx))
    then err (low_fee (needed_fee (size tx)))
    else if ltb max_mempool_bytes (pool.bytes + size tx)
    then err full
    else ok fee

module _ (p : Primitives) where
  unfoldable pub validate_standalone_tx : ChainState → Transaction → Checked ℕ
  validate_standalone_tx s tx = do
    refuse_if (is_coinbase tx.body) no_inputs
    check_tx p s.params (lookup_once s.utxos) tx (chain_height s + 1) []

  -- All the tests of `Mempool::insert`, in order.
  unfoldable pub check_insert : ChainState → Transaction → Mempool → Result MempoolError ℕ
  check_insert s tx pool = do
    refuse_if (contains_key (txid p.digest tx.body) pool.txs) duplicate
    refuse_if (any_spent tx.body.inputs pool.spends) conflict
    check_fee tx pool (validate_standalone_tx s tx)

  unfoldable pub add_checked :
      Transaction → Mempool → Result MempoolError ℕ → Result MempoolError ℕ × Mempool
  add_checked tx pool (err e) = (err e, pool)
  add_checked tx pool (ok fee) = (
    ok fee,
    record {
      txs = insert (txid p.digest tx.body) tx pool.txs;
      spends = index_inputs tx.body.inputs (txid p.digest tx.body) pool.spends;
      bytes = pool.bytes + size tx;
    },
  )

  -- `Mempool::insert`
  unfoldable pub insert_tx : ChainState → Transaction → Mempool → Result MempoolError ℕ × Mempool
  insert_tx s tx pool = add_checked tx pool (check_insert s tx pool)

  -- The first loop of `update_for_block`.
  unfoldable pub drop_included : List Transaction → Mempool → Mempool
  drop_included [] pool = pool
  drop_included (tx ∷ txs) pool =
      drop_included txs (remove_conflicts tx.body.inputs (remove_tx (txid p.digest tx.body) pool))

  -- One round of the second loop: a transaction that has become invalid is removed.
  unfoldable pub revalidate : ChainState → Hash256 → Mempool → Option Transaction → Mempool
  revalidate s id pool none = pool
  revalidate s id pool (some tx) = keep_valid id pool (validate_standalone_tx s tx)

  unfoldable pub revalidate_all : ChainState → List Hash256 → Mempool → Mempool
  revalidate_all s [] pool = pool
  revalidate_all s (id ∷ ids) pool = revalidate_all s ids (revalidate s id pool (get id pool.txs))

  unfoldable pub update_for_block : ChainState → Block → Mempool → Mempool
  update_for_block s block pool =
      let kept = drop_included block.transactions pool in
      revalidate_all s (map (λ e. e.0) kept.txs) kept
