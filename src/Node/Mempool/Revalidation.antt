-- ===== src/Node/Mempool/Revalidation.antt =====
-- What the second loop of `update_for_block` leaves in the pool.
use summerpoem_cli.Prelude.{
  ℕ, ◌≡◌, refl, sym, arith, true, Option, none, some, List, [], ◌∷◌, map, Bool-cases, inl, inr,
}
use mathlib.Core.Path.{subst}
use summerpoem_cli.Prelude.Result.{ok, err}
use summerpoem_cli.Prelude.Equality.{bytes_eq, bytes_Eq, bytes_eq_iff}
use summerpoem_cli.Prelude.Dictionary.{Dictionary, get, get-remove}
use summerpoem_cli.Core.Hash.{Hash256}
use summerpoem_cli.Core.Tx.{Transaction}
use summerpoem_cli.Core.Block.{Block}
use summerpoem_cli.Crypto.{Primitives}
use summerpoem_cli.Node.CheckTx.{Checked}
use summerpoem_cli.Node.Blocks.{seen_before}
use summerpoem_cli.Node.Chain.{ChainState}
use summerpoem_cli.Node.Mempool.{
  Mempool, drop_found, remove_tx, keep_valid, validate_standalone_tx, revalidate, revalidate_all,
  drop_included, update_for_block,
}

-- The keys of a dictionary hold every key that is found in it.
keys-seen :
    (k : Hash256) (m : Dictionary Hash256 Transaction) (t : Transaction)
    → get k m ≡ some t
    → seen_before k (map (λ e. e.0) m) ≡ true
unfolding get seen_before
keys-seen k [] t h = cc
keys-seen k ((j, u) ∷ m) t h = ground (arith, keys-seen k m t)

drop_found-get :
    (k id : Hash256) (pool : Mempool) (r : Option Transaction) (t : Transaction)
    → get k (drop_found id pool r).txs ≡ some t
    → get k pool.txs ≡ some t
unfolding drop_found
drop_found-get k id pool none t h = h
drop_found-get k id pool (some tx) t h = ground (arith, get-remove k id pool.txs)

remove_tx-get :
    (k id : Hash256) (pool : Mempool) (t : Transaction)
    → get k (remove_tx id pool).txs ≡ some t
    → get k pool.txs ≡ some t
unfolding remove_tx
remove_tx-get k id pool t h = drop_found-get k id pool _ t h

keep_valid-get :
    (k id : Hash256) (pool : Mempool) (r : Checked ℕ) (t : Transaction)
    → get k (keep_valid id pool r).txs ≡ some t
    → get k pool.txs ≡ some t
unfolding keep_valid
keep_valid-get k id pool (ok fee) t h = h
keep_valid-get k id pool (err e) t h = remove_tx-get k id pool t h

remove_tx-gone :
    (k : Hash256) (pool : Mempool) (r : Option Transaction)
    → get k pool.txs ≡ r
    → get k (drop_found k pool r).txs ≡ none
unfolding drop_found
remove_tx-gone k pool none h = h
remove_tx-gone k pool (some tx) h = ground (arith, get-remove k k pool.txs, bytes_eq_iff k k)

-- A transaction that a round on its id leaves in the pool is valid.
keep_valid-ok :
    (k : Hash256) (pool : Mempool) (r : Checked ℕ) (t : Transaction)
    → get k (keep_valid k pool r).txs ≡ some t
    → (fee : ℕ) × (r ≡ ok fee)
unfolding keep_valid remove_tx
keep_valid-ok k pool (ok fee) t h = (fee, refl)
keep_valid-ok k pool (err e) t h = absurd (let gone = remove_tx-gone k pool _ refl in cc)

module _ (p : Primitives) (s : ChainState) where
  revalidate-get :
      (k id : Hash256) (pool : Mempool) (r : Option Transaction) (t : Transaction)
      → get k (revalidate p s id pool r).txs ≡ some t
      → get k pool.txs ≡ some t
  unfolding revalidate
  revalidate-get k id pool none t h = h
  revalidate-get k id pool (some tx) t h = keep_valid-get k id pool _ t h

  revalidate_all-get :
      (k : Hash256) (ids : List Hash256) (pool : Mempool) (t : Transaction)
      → get k (revalidate_all p s ids pool).txs ≡ some t
      → get k pool.txs ≡ some t
  unfolding revalidate_all
  revalidate_all-get k [] pool t h = h
  revalidate_all-get k (id ∷ ids) pool t h =
      revalidate-get k id pool _ t
        (revalidate_all-get k ids (revalidate p s id pool (get id pool.txs)) t h)

  revalidate-ok :
      (k : Hash256) (pool : Mempool) (r : Option Transaction) (t : Transaction)
      → get k pool.txs ≡ r
      → get k (revalidate p s k pool r).txs ≡ some t
      → (fee : ℕ) × (validate_standalone_tx p s t ≡ ok fee)
  unfolding revalidate
  revalidate-ok k pool none t g h = absurd cc
  revalidate-ok k pool (some tx) t g h =
      let found = keep_valid-get k k pool _ t h in
      let (fee, e) = keep_valid-ok k pool _ t h in
      let same : tx ≡ t = cc in (fee, subst (λ u. validate_standalone_tx p s u ≡ ok fee) same e)

  revalidate_all-ok :
      (k : Hash256) (ids : List Hash256) (pool : Mempool) (t : Transaction)
      → seen_before k ids ≡ true
      → get k (revalidate_all p s ids pool).txs ≡ some t
      → (fee : ℕ) × (validate_standalone_tx p s t ≡ ok fee)
  unfolding revalidate_all seen_before
  revalidate_all-ok k [] pool t m h = absurd cc
  revalidate_all-ok k (id ∷ ids) pool t m h =
      let next = revalidate p s id pool (get id pool.txs) in
      elim (Bool-cases (bytes_eq k id)) [
        | inl same ↦
            let e : id ≡ k = sym ((bytes_eq_iff k id).0 same) in
            revalidate-ok k pool (get k pool.txs) t refl (
              subst (λ j. get k (revalidate p s j pool (get j pool.txs)).txs ≡ some t) e
                (revalidate_all-get k ids next t h))
        | inr other ↦ revalidate_all-ok k ids next t (ground arith) h
      ]

  -- Every transaction that is in the pool after a block is connected is valid on the state of the
  -- chain that the pool was updated to: its check there returns a fee.
  pub update_for_block-Valid :
      (block : Block) (pool : Mempool) (id : Hash256) (t : Transaction)
      → get id (update_for_block p s block pool).txs ≡ some t
      → (fee : ℕ) × (validate_standalone_tx p s t ≡ ok fee)
  unfolding update_for_block
  update_for_block-Valid block pool id t h =
      let kept = drop_included p block.transactions pool in
      let ids = map (λ e. e.0) kept.txs in
      revalidate_all-ok id ids kept t (keys-seen id kept.txs t (revalidate_all-get id ids kept t h))
        h
