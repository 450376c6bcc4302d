-- ===== src/Node/Mempool/Index.antt =====
-- `spends`, as the index of the outputs that the pooled transactions spend.
use summerpoem_cli.Prelude.{
  ◌≡◌, arith, true, false, none, some, List, [], ◌∷◌, if◌then◌else◌, Bool-cases, inl, inr,
}
use summerpoem_cli.Prelude.Equality.{bytes_Eq, bytes_eq_iff}
use summerpoem_cli.Prelude.Dictionary.{
  Dictionary, get, insert, remove, contains_key, get-insert, get-remove, contains_key-of_get,
}
use summerpoem_cli.Core.Hash.{Hash256}
use summerpoem_cli.Core.Tx.{OutPoint, TxInput, Transaction}
use summerpoem_cli.Node.Utxo.{outpoint_eq_iff, outpoint_Eq}
use summerpoem_cli.Node.CheckTx.{spent_before}
use summerpoem_cli.Node.Mempool.{any_spent, index_inputs, unindex_inputs}

-- An input of the transaction spends the output.
abbrev pub Spends : Transaction → OutPoint → Type 0
Spends tx op = spent_before op tx.body.inputs ≡ true

get-index_inputs :
    (op : OutPoint) (xs : List TxInput) (id : Hash256) (m : Dictionary OutPoint Hash256)
    → get op (index_inputs xs id m) ≡ (if spent_before op xs then some id else get op m)
unfolding index_inputs spent_before
get-index_inputs op [] id m = ground arith
get-index_inputs op (x ∷ xs) id m =
    ground (arith, get-index_inputs op xs id (insert x.prevout id m), get-insert op x.prevout id m)

get-unindex_inputs :
    (op : OutPoint) (xs : List TxInput) (m : Dictionary OutPoint Hash256)
    → get op (unindex_inputs xs m) ≡ (if spent_before op xs then none else get op m)
unfolding unindex_inputs spent_before
get-unindex_inputs op [] m = ground arith
get-unindex_inputs op (x ∷ xs) m =
    ground (arith, get-unindex_inputs op xs (remove x.prevout m), get-remove op x.prevout m)

any_spent-get :
    (op : OutPoint) (xs : List TxInput) (m : Dictionary OutPoint Hash256)
    → any_spent xs m ≡ false
    → spent_before op xs ≡ true
    → get op m ≡ none
unfolding any_spent spent_before
any_spent-get op [] m h s = cc
any_spent-get op (x ∷ xs) m h s =
    ground
      (arith, any_spent-get op xs m, contains_key-of_get x.prevout m, outpoint_eq_iff op x.prevout)

-- The index leads from an output to a transaction exactly where that one is pooled and spends it.
pub record IsIndexed (txs : Dictionary Hash256 Transaction) (spends : Dictionary OutPoint Hash256)
    : Type 0 where
  pub indexed :
      (id : Hash256) (tx : Transaction) (op : OutPoint)
      → get id txs ≡ some tx
      → Spends tx op
      → get op spends ≡ some id
  pub found :
      (id : Hash256) (op : OutPoint)
      → get op spends ≡ some id
      → (tx : Transaction) × (get id txs ≡ some tx) × Spends tx op

module _ {txs : Dictionary Hash256 Transaction} {spends : Dictionary OutPoint Hash256}
    (v : IsIndexed txs spends) (id : Hash256) (tx : Transaction) where
  insert-indexed :
      (k : Hash256) (t : Transaction) (op : OutPoint)
      → contains_key id txs ≡ false
      → any_spent tx.body.inputs spends ≡ false
      → get k (insert id tx txs) ≡ some t
      → Spends t op
      → get op (index_inputs tx.body.inputs id spends) ≡ some k
  insert-indexed k t op fresh unspent g s = ground (
    arith,
    get-insert k id tx txs,
    get-index_inputs op tx.body.inputs id spends,
    any_spent-get op tx.body.inputs spends,
    v.indexed k t op,
    bytes_eq_iff k id,
  )

  insert-found :
      (k : Hash256) (op : OutPoint)
      → contains_key id txs ≡ false
      → get op (index_inputs tx.body.inputs id spends) ≡ some k
      → (t : Transaction) × (get k (insert id tx txs) ≡ some t) × Spends t op
  insert-found k op fresh g = elim (Bool-cases (spent_before op tx.body.inputs)) [
    | inl own ↦
        let e : k ≡ id = ground (arith, get-index_inputs op tx.body.inputs id spends) in
        (tx, ground (arith, get-insert k id tx txs, bytes_eq_iff k id), own)
    | inr other ↦
        let g' : get op spends ≡ some k =
          ground (arith, get-index_inputs op tx.body.inputs id spends) in
        let (t, held, s) = v.found k op g' in
        (
          t,
          ground (arith, get-insert k id tx txs, bytes_eq_iff k id, contains_key-of_get id txs),
          s,
        )
  ]

  pub insert-IsIndexed :
      contains_key id txs ≡ false
      → any_spent tx.body.inputs spends ≡ false
      → IsIndexed (insert id tx txs) (index_inputs tx.body.inputs id spends)
  insert-IsIndexed fresh unspent = record {
    indexed = λ k t op. insert-indexed k t op fresh unspent;
    found = λ k op. insert-found k op fresh;
  }

  remove-indexed :
      (k : Hash256) (t : Transaction) (op : OutPoint)
      → get id txs ≡ some tx
      → get k (remove id txs) ≡ some t
      → Spends t op
      → get op (unindex_inputs tx.body.inputs spends) ≡ some k
  remove-indexed k t op held g s = ground (
    arith,
    get-remove k id txs,
    get-unindex_inputs op tx.body.inputs spends,
    v.indexed id tx op,
    v.indexed k t op,
    bytes_eq_iff k id,
  )

  remove-found :
      (k : Hash256) (op : OutPoint)
      → get id txs ≡ some tx
      → get op (unindex_inputs tx.body.inputs spends) ≡ some k
      → (t : Transaction) × (get k (remove id txs) ≡ some t) × Spends t op
  remove-found k op held g =
      let g' : get op spends ≡ some k =
        ground (arith, get-unindex_inputs op tx.body.inputs spends) in
      let (t, here, s) = v.found k op g' in
      (
        t,
        ground (
          arith,
          get-remove k id txs,
          get-unindex_inputs op tx.body.inputs spends,
          bytes_eq_iff k id,
        ),
        s,
      )

  pub remove-IsIndexed :
      get id txs ≡ some tx → IsIndexed (remove id txs) (unindex_inputs tx.body.inputs spends)
  remove-IsIndexed held = record {
    indexed = λ k t op. remove-indexed k t op held;
    found = λ k op. remove-found k op held;
  }
