-- ===== src/Node/Mempool/Admission.antt =====
-- What the pool asks of a transaction, beside what a block asks of it.
use summerpoem_cli.Prelude.{ℕ, suc, ◌+◌, ◌≤◌, ◌≡◌, refl, sym, ◌∙◌, arith, false, List, [], ◌∷◌, All}
use summerpoem_cli.Prelude.Result.{
  Result, ok, err, ◌>>=◌, ◌>>◌, refuse_if, ok_or, >>=-congr, >>-congr, >>-eq-ok, refuse_if-eq-ok,
}
use summerpoem_cli.Prelude.Checked.{checked_add}
use summerpoem_cli.Prelude.Equality.{bytes_Eq}
use summerpoem_cli.Prelude.Dictionary.{get, contains_key}
use summerpoem_cli.Core.Tx.{
  OutPoint, TxInput, TxBody, Witness, Transaction, txid, is_coinbase, size,
}
use summerpoem_cli.Core.Params.{Params}
use summerpoem_cli.Crypto.{Primitives}
use summerpoem_cli.Node.Error.{no_inputs, extra_coinbase, overflow}
use summerpoem_cli.Node.Utxo.{Utxos, outpoint_Eq}
use summerpoem_cli.Node.Utxo.Value.{Fresh, Distinct}
use summerpoem_cli.Node.CheckTx.{Checked, check_distinct, check_input, check_inputs, check_tx}
use summerpoem_cli.Node.CheckTx.Inputs.{
  check_distinct-Distinct, lookup_in, Accepted, check_tx-Accepted,
}
use summerpoem_cli.Node.Blocks.{apply_tx, apply_txs}
use summerpoem_cli.Node.Chain.{ChainState}
use summerpoem_cli.Node.Chain.Queries.{chain_height}
use summerpoem_cli.Node.Mempool.{
  contains, lookup_once, validate_standalone_tx, Mempool, check_fee, needed_fee, max_mempool_bytes,
  any_spent, check_insert,
}

-- None of the inputs' outputs has been handed out.
abbrev Unused : List OutPoint → List TxInput → Type 0
Unused spent xs = All (λ y. contains y.prevout spent ≡ false) xs

Unused-cons :
    (x : TxInput) (spent : List OutPoint) (xs : List TxInput)
    → Fresh x xs
    → Unused spent xs
    → Unused (x.prevout ∷ spent) xs
unfolding contains
Unused-cons x spent [] f h = tt
Unused-cons x spent (y ∷ ys) (f, fs) (h, hs) = (ground arith, Unused-cons x spent ys fs hs)

Unused-nil : (xs : List TxInput) → Unused [] xs
unfolding contains
Unused-nil [] = tt
Unused-nil (x ∷ xs) = (refl, Unused-nil xs)

module _ (p : Primitives) (params : Params) (u : Utxos) where
  -- On distinct inputs, handing out each output once makes no difference.
  check_inputs-lookup_once :
      (body : TxBody) (height i : ℕ) (xs : List TxInput) (ws : List Witness) (acc : ℕ)
      (spent : List OutPoint)
      → Distinct xs
      → Unused spent xs
      → check_inputs p params (lookup_once u) body height i xs ws acc spent
        ≡ check_inputs p params (lookup_in u) body height i xs ws acc tt
  unfolding check_inputs lookup_once
  check_inputs-lookup_once body height i [] ws acc spent d h = refl
  check_inputs-lookup_once body height i (x ∷ xs) [] acc spent d h = refl
  check_inputs-lookup_once body height i (x ∷ xs) (w ∷ ws) acc spent (f, d) (h, hs) = rw h (
      >>=-congr (ok_or (get x.prevout u) _) (λ v.
        >>-congr (check_input p params body height i w v) (λ _.
          >>=-congr (ok_or (checked_add acc v.output.amount) _) (λ acc'.
            check_inputs-lookup_once body height (suc i) xs ws acc' (x.prevout ∷ spent) d
              (Unused-cons x spent xs f hs)))))

  check_tx-lookup_once :
      (tx : Transaction) (height : ℕ)
      → check_tx p params (lookup_once u) tx height []
        ≡ check_tx p params (lookup_in u) tx height tt
  unfolding check_tx
  check_tx-lookup_once tx height = >>-congr (refuse_if _ _) (λ _. >>-congr (refuse_if _ _) (λ _.
      >>-congr (refuse_if _ _) (λ _. >>-congr (refuse_if _ _) (λ _.
        >>-congr (check_distinct [] tx.body.inputs) (λ d.
          rw
            (check_inputs-lookup_once tx.body height 0 tx.body.inputs tx.witnesses 0 []
              (check_distinct-Distinct tx.body.inputs d) (Unused-nil tx.body.inputs))
            refl)))))

check_fee-eq-ok :
    (tx : Transaction) (pool : Mempool) (r : Checked ℕ) (fee : ℕ)
    → check_fee tx pool r ≡ ok fee
    → (r ≡ ok fee) × (needed_fee (size tx) ≤ fee) × (pool.bytes + size tx ≤ max_mempool_bytes)
unfolding check_fee
check_fee-eq-ok tx pool (err e) fee h = absurd cc
check_fee-eq-ok tx pool (ok f) fee h = ground arith

module _ (p : Primitives) (s : ChainState) where
  -- It refuses a coinbase, and is `check_tx` at the height above the tip.
  pub validate_standalone_tx-check_tx :
      (tx : Transaction)
      → validate_standalone_tx p s tx ≡ (
          refuse_if (is_coinbase tx.body) no_inputs
          >> check_tx p s.params (lookup_in s.utxos) tx (chain_height s + 1) tt)
  unfolding validate_standalone_tx
  validate_standalone_tx-check_tx tx =
      >>-congr (refuse_if _ _)
        (λ _. check_tx-lookup_once p s.params s.utxos tx (chain_height s + 1))

  -- What the loop of the next block's validation does with a transaction on the tip's unspent outputs
  -- is what the pool's check says: it stops with the check's error, or goes on with the check's fee
  -- added and the transaction applied. Only a coinbase has another error: the loop stops with
  -- `ExtraCoinbase`, and the check with `NoInputs`.
  pub validate_standalone_tx-apply_txs :
      (tx : Transaction) (later : List Transaction) (fees : ℕ)
      → (apply_txs p s.params (chain_height s + 1) (tx ∷ later) fees s.utxos ≡ (
          refuse_if (is_coinbase tx.body) extra_coinbase
          >> (validate_standalone_tx p s tx >>= λ fee.
              ok_or (checked_add fees fee) overflow >>= λ fees'.
              apply_txs p s.params
                (chain_height s + 1)
                later
                fees'
                (apply_tx p s.params tx (chain_height s + 1) s.utxos))))
        × (validate_standalone_tx p s tx
            ≡ (refuse_if (is_coinbase tx.body) no_inputs >> validate_standalone_tx p s tx))
  unfolding apply_txs refuse_if ◌>>◌ ◌>>=◌
  validate_standalone_tx-apply_txs tx later fees =
      let checks = validate_standalone_tx-check_tx tx in
      (
        >>-congr (refuse_if (is_coinbase tx.body) extra_coinbase)
            (λ e. rw (checks, refuse_if-eq-ok _ _ e) refl),
        checks
            ∙ >>-congr (refuse_if (is_coinbase tx.body) no_inputs)
                (λ e. sym (rw (checks, refuse_if-eq-ok _ _ e) refl)),
      )

  validate_standalone_tx-Accepted :
      (tx : Transaction) (fee : ℕ)
      → validate_standalone_tx p s tx ≡ ok fee
      → Accepted p s.params s.utxos tx (chain_height s + 1) fee
  validate_standalone_tx-Accepted tx fee h =
      let (_, h') = >>-eq-ok (refuse_if _ _) _ (sym (validate_standalone_tx-check_tx tx) ∙ h) in
      check_tx-Accepted p s.params s.utxos tx (chain_height s + 1) fee h'

  -- The tests that an admitted transaction has passed.
  pub record Passed (tx : Transaction) (pool : Mempool) (fee : ℕ) : Type 0 where
    pub fresh : contains_key (txid p.digest tx.body) pool.txs ≡ false
    pub unspent : any_spent tx.body.inputs pool.spends ≡ false
    pub accepted : Accepted p s.params s.utxos tx (chain_height s + 1) fee
    pub paid : needed_fee (size tx) ≤ fee
    pub fits : pool.bytes + size tx ≤ max_mempool_bytes

  pub check_insert-Passed :
      (tx : Transaction) (pool : Mempool) (fee : ℕ)
      → check_insert p s tx pool ≡ ok fee
      → Passed tx pool fee
  unfolding check_insert
  check_insert-Passed tx pool fee h =
      let (a, h₁) = >>-eq-ok (refuse_if _ _) _ h in
      let (b, h₂) = >>-eq-ok (refuse_if _ _) _ h₁ in
      let (v, n, m) = check_fee-eq-ok tx pool _ fee h₂ in
      record {
        fresh = refuse_if-eq-ok _ _ a;
        unspent = refuse_if-eq-ok _ _ b;
        accepted = validate_standalone_tx-Accepted tx fee v;
        paid = n;
        fits = m;
      }
