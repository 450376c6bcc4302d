-- ===== src/Node/Mempool/Invariant.antt =====
-- The invariant of the pool, and that its operations keep it.
use summerpoem_cli.Prelude.{ℕ, ◌≤◌, ◌≡◌, refl, arith, Option, none, some, List, [], ◌∷◌}
use summerpoem_cli.Prelude.Result.{Result, ok, err}
use summerpoem_cli.Prelude.Equality.{bytes_Eq}
use summerpoem_cli.Prelude.Dictionary.{get, total, total-remove, total-insert-le}
use summerpoem_cli.Core.Hash.{Hash256}
use summerpoem_cli.Core.Tx.{TxInput, Transaction, txid, size}
use summerpoem_cli.Core.Block.{Block}
use summerpoem_cli.Crypto.{Primitives}
use summerpoem_cli.Node.Utxo.{outpoint_Eq}
use summerpoem_cli.Node.CheckTx.{Checked}
use summerpoem_cli.Node.Chain.{ChainState}
use summerpoem_cli.Node.Mempool.{
  Mempool, MempoolError, max_mempool_bytes, drop_found, remove_tx, remove_conflict,
  remove_conflicts, validate_standalone_tx, check_insert, add_checked, insert_tx, drop_included,
  keep_valid, revalidate, revalidate_all, update_for_block,
}
use summerpoem_cli.Node.Mempool.Admission.{check_insert-Passed}
use summerpoem_cli.Node.Mempool.Index.{IsIndexed, insert-IsIndexed, remove-IsIndexed}

-- The index is that of the pooled transactions, `bytes` covers their sizes, and is within the cap.
pub record IsPool (pool : Mempool) : Type 0 where
  pub index : IsIndexed pool.txs pool.spends
  pub covered : total size pool.txs ≤ pool.bytes
  pub capped : pool.bytes ≤ max_mempool_bytes

-- The empty pool, and what can become of it: transactions are offered and blocks are connected,
-- each against any state of the chain.
pub data Reach (p : Primitives) : Mempool → Type 0 where
  empty : Reach p (record { txs = []; spends = []; bytes = 0 })
  offered :
      {pool : Mempool}
      → Reach p pool
      → (s : ChainState) (tx : Transaction) → Reach p (insert_tx p s tx pool).1
  connected :
      {pool : Mempool}
      → Reach p pool
      → (s : ChainState) (block : Block) → Reach p (update_for_block p s block pool)

empty-IsPool : IsPool (record { txs = []; spends = []; bytes = 0 })
unfolding get total
empty-IsPool = record {
  index = record { indexed = λ id tx op g s. cc; found = λ id op g. absurd cc };
  covered = omega arith;
  capped = omega arith;
}

drop_found-IsPool :
    (id : Hash256) (pool : Mempool) (r : Option Transaction)
    → get id pool.txs ≡ r
    → IsPool pool
    → IsPool (drop_found id pool r)
unfolding drop_found
drop_found-IsPool id pool none h v = v
drop_found-IsPool id pool (some tx) h v =
    let held = total-remove size id tx pool.txs h in
    record {
      index = remove-IsIndexed v.index id tx h;
      covered = omega (arith, v.covered);
      capped = omega (arith, v.capped);
    }

remove_tx-IsPool : (id : Hash256) (pool : Mempool) → IsPool pool → IsPool (remove_tx id pool)
unfolding remove_tx
remove_tx-IsPool id pool v = drop_found-IsPool id pool _ refl v

remove_conflict-IsPool :
    (r : Option Hash256) (pool : Mempool) → IsPool pool → IsPool (remove_conflict r pool)
unfolding remove_conflict
remove_conflict-IsPool none pool v = v
remove_conflict-IsPool (some id) pool v = remove_tx-IsPool id pool v

remove_conflicts-IsPool :
    (xs : List TxInput) (pool : Mempool) → IsPool pool → IsPool (remove_conflicts xs pool)
unfolding remove_conflicts
remove_conflicts-IsPool [] pool v = v
remove_conflicts-IsPool (x ∷ xs) pool v =
    remove_conflicts-IsPool xs _ (remove_conflict-IsPool (get x.prevout pool.spends) pool v)

keep_valid-IsPool :
    (id : Hash256) (pool : Mempool) (r : Checked ℕ) → IsPool pool → IsPool (keep_valid id pool r)
unfolding keep_valid
keep_valid-IsPool id pool (ok fee) v = v
keep_valid-IsPool id pool (err e) v = remove_tx-IsPool id pool v

module _ (p : Primitives) where
  add_checked-IsPool :
      (s : ChainState) (tx : Transaction) (pool : Mempool) (r : Result MempoolError ℕ)
      → check_insert p s tx pool ≡ r
      → IsPool pool
      → IsPool (add_checked p tx pool r).1
  unfolding add_checked
  add_checked-IsPool s tx pool (err e) h v = v
  add_checked-IsPool s tx pool (ok fee) h v =
      let c = check_insert-Passed p s tx pool fee h in
      let id = txid p.digest tx.body in
      record {
        index = insert-IsIndexed v.index id tx c.fresh c.unspent;
        covered = omega (arith, v.covered, total-insert-le size id tx pool.txs);
        capped = c.fits;
      }

  pub insert_tx-IsPool :
      (s : ChainState) (tx : Transaction) (pool : Mempool)
      → IsPool pool
      → IsPool (insert_tx p s tx pool).1
  unfolding insert_tx
  insert_tx-IsPool s tx pool v = add_checked-IsPool s tx pool _ refl v

  drop_included-IsPool :
      (txs : List Transaction) (pool : Mempool) → IsPool pool → IsPool (drop_included p txs pool)
  unfolding drop_included
  drop_included-IsPool [] pool v = v
  drop_included-IsPool (tx ∷ txs) pool v =
      drop_included-IsPool txs _
        (remove_conflicts-IsPool tx.body.inputs _ (remove_tx-IsPool (txid p.digest tx.body) pool v))

  revalidate-IsPool :
      (s : ChainState) (id : Hash256) (pool : Mempool) (r : Option Transaction)
      → IsPool pool
      → IsPool (revalidate p s id pool r)
  unfolding revalidate
  revalidate-IsPool s id pool none v = v
  revalidate-IsPool s id pool (some tx) v =
      keep_valid-IsPool id pool (validate_standalone_tx p s tx) v

  revalidate_all-IsPool :
      (s : ChainState) (ids : List Hash256) (pool : Mempool)
      → IsPool pool
      → IsPool (revalidate_all p s ids pool)
  unfolding revalidate_all
  revalidate_all-IsPool s [] pool v = v
  revalidate_all-IsPool s (id ∷ ids) pool v =
      revalidate_all-IsPool s ids _ (revalidate-IsPool s id pool (get id pool.txs) v)

  pub update_for_block-IsPool :
      (s : ChainState) (block : Block) (pool : Mempool)
      → IsPool pool
      → IsPool (update_for_block p s block pool)
  unfolding update_for_block
  update_for_block-IsPool s block pool v =
      revalidate_all-IsPool s _ _ (drop_included-IsPool block.transactions pool v)

  -- Whatever is offered and connected from the empty pool on: an output leads in the index to a
  -- transaction exactly where that one is pooled and spends it, so no two pooled transactions spend
  -- the same output, and the sizes of the pooled transactions are within the cap on `bytes`.
  pub Reach-IsPool : {pool : Mempool} → Reach p pool → IsPool pool
  Reach-IsPool empty = empty-IsPool
  Reach-IsPool (offered r s tx) = insert_tx-IsPool s tx _ (Reach-IsPool r)
  Reach-IsPool (connected r s block) = update_for_block-IsPool s block _ (Reach-IsPool r)
