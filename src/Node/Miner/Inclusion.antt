-- ===== src/Node/Miner/Inclusion.antt =====
-- The transactions of a template apply one after the other.
use summerpoem_cli.Prelude.{
  ℕ, suc, ◌+◌, ◌-◌, ◌%◌, ◌^◌, ◌≤◌, ◌<◌, ◌≡◌, ◌≢◌, refl, sym, ap, ◌∙◌, arith, Bool, true, false,
  none, some, List, [], ◌∷◌, ltb, All, Bool-cases, Option-cases, inl, inr,
}
use summerpoem_cli.Prelude.Result.{
  ok, err, ◌>>=◌, ◌>>◌, refuse_if, ok_or, >>=-congr, >>-congr, >>-eq-ok, refuse_if-eq-ok,
}
use summerpoem_cli.Prelude.Lists.{All-both}
use summerpoem_cli.Prelude.Checked.{checked_add, u64_mod}
use summerpoem_cli.Prelude.Dictionary.{get, insert, remove, get-insert, get-remove}
use summerpoem_cli.Core.Hash.{Hash256}
use summerpoem_cli.Core.Tx.{
  OutPoint, TxInput, TxOutput, TxBody, Witness, Transaction, txid, is_coinbase, size,
}
use summerpoem_cli.Core.Params.{Params}
use summerpoem_cli.Crypto.{Primitives}
use summerpoem_cli.Node.Error.{no_inputs}
use summerpoem_cli.Node.Utxo.{
  Utxo, Utxos, value, outpoint_eq, outpoint_eq-flip, outpoint_eq_iff, outpoint_Eq, spend_inputs,
  add_outputs,
}
use summerpoem_cli.Node.Utxo.Value.{Provide}
use summerpoem_cli.Node.CheckTx.{Checked, check_input, check_inputs, check_tx}
use summerpoem_cli.Node.CheckTx.Inputs.{lookup_in, check_tx-Accepted}
use summerpoem_cli.Node.Blocks.{apply_tx, apply_txs}
use summerpoem_cli.Node.Blocks.Conserve.{value-apply_tx}
use summerpoem_cli.Node.Chain.{ChainState}
use summerpoem_cli.Node.Chain.Queries.{chain_height}
use summerpoem_cli.Node.Mempool.{validate_standalone_tx}
use summerpoem_cli.Node.Mempool.Admission.{validate_standalone_tx-check_tx}
use summerpoem_cli.Node.Miner.{spends_any, shares_input, conflicts, fee_if, include}

-- The output is none of the inputs'.
abbrev Unspent : OutPoint → List TxInput → Type 0
Unspent op xs = All (λ x. outpoint_eq op x.prevout ≡ false) xs

get-spend_inputs :
    (op : OutPoint) (xs : List TxInput) (u : Utxos)
    → Unspent op xs
    → get op (spend_inputs xs u) ≡ get op u
unfolding spend_inputs
get-spend_inputs op [] u h = refl
get-spend_inputs op (x ∷ xs) u (h, hs) =
    get-spend_inputs op xs (remove x.prevout u) hs ∙ rw (get-remove op x.prevout u, h) refl

get-add_outputs :
    (op : OutPoint) (id : Hash256) (height : ℕ) (coinbase : Bool) (vout : ℕ)
    (outputs : List TxOutput) (u : Utxos)
    → op.txid ≢ id
    → get op (add_outputs id height coinbase vout outputs u) ≡ get op u
unfolding add_outputs
get-add_outputs op id height coinbase vout [] u n = refl
get-add_outputs op id height coinbase vout (o ∷ outputs) u n =
    let key : OutPoint = record { txid = id; vout = vout % 2 ^ 32 } in
    let entry : Utxo = record { output = o; height = height; coinbase = coinbase } in
    let other : outpoint_eq op key ≡ false = elim (Bool-cases (outpoint_eq op key)) [
      | inl same ↦ absurd (n (ap (λ k. k.txid) ((outpoint_eq_iff op key).0 same)))
      | inr differs ↦ differs
    ] in
    get-add_outputs op id height coinbase (suc vout) outputs (insert key entry u) n
    ∙ rw (get-insert op key entry u, other) refl

-- None of the transactions spends the output.
abbrev Untouched : OutPoint → List Transaction → Type 0
Untouched op txs = All (λ t. Unspent op t.body.inputs) txs

All-true : {P : TxInput → Type 0} (xs : List TxInput) → ((x : TxInput) → P x) → All P xs
All-true [] f = tt
All-true (x ∷ xs) f = (f x, All-true xs f)

spends_any-false :
    (a : TxInput) (xs : List TxInput)
    → spends_any a xs ≡ false
    → All (λ x. outpoint_eq x.prevout a.prevout ≡ false) xs
unfolding spends_any
spends_any-false a [] h = tt
spends_any-false a (x ∷ xs) h =
    (outpoint_eq-flip a.prevout x.prevout (ground arith), spends_any-false a xs (ground arith))

shares_input-false :
    (others xs : List TxInput)
    → shares_input others xs ≡ false
    → All (λ x. Unspent x.prevout others) xs
unfolding shares_input
shares_input-false [] xs h = All-true xs (λ x. tt)
shares_input-false (a ∷ others) xs h =
    All-both _ _ (λ x. Unspent x.prevout (a ∷ others)) xs (λ x d ds. (d, ds))
      (spends_any-false a xs (ground arith)) (shares_input-false others xs (ground arith))

conflicts-false :
    (included : List Transaction) (tx : Transaction)
    → conflicts included tx ≡ false
    → All (λ x. Untouched x.prevout included) tx.body.inputs
unfolding conflicts
conflicts-false [] tx h = All-true tx.body.inputs (λ x. tt)
conflicts-false (other ∷ included) tx h =
    All-both _ _ (λ x. Untouched x.prevout (other ∷ included)) tx.body.inputs (λ x d ds. (d, ds))
      (shares_input-false other.body.inputs tx.body.inputs (ground arith))
      (conflicts-false included tx (ground arith))

fee_if-eq-some :
    (included : List Transaction) (budget : ℕ) (tx : Transaction) (r : Checked ℕ) (fee : ℕ)
    → fee_if included budget tx r ≡ some fee
    → (r ≡ ok fee) × (size tx ≤ budget) × (conflicts included tx ≡ false)
unfolding fee_if
fee_if-eq-some included budget tx (err e) fee h = absurd cc
fee_if-eq-some included budget tx (ok f) fee h = ground arith

-- What the set has and no included transaction spends, the later set has too.
abbrev Agree : Utxos → Utxos → List Transaction → Type 0
Agree u cur included =
    (op : OutPoint) (v : Utxo) → get op u ≡ some v → Untouched op included → get op cur ≡ some v

Provide-Agree :
    (u cur : Utxos) (included : List Transaction) (xs : List TxInput) (n : ℕ)
    → Agree u cur included
    → Provide u xs n
    → All (λ x. Untouched x.prevout included) xs
    → All (λ x. get x.prevout cur ≡ get x.prevout u) xs
Provide-Agree u cur included [] n a g h = tt
Provide-Agree u cur included (x ∷ xs) n a (v, rest, g, more, e) (h, hs) =
    (a x.prevout v g h ∙ sym g, Provide-Agree u cur included xs rest a more hs)

-- No output of the set has the transaction's id.
abbrev pub IsNew : Primitives → Utxos → Transaction → Type 0
IsNew p u tx = (op : OutPoint) (v : Utxo) → get op u ≡ some v → op.txid ≢ txid p.digest tx.body

module _ (p : Primitives) (params : Params) where
  -- The check of a transaction reads its own inputs only.
  check_inputs-lookup :
      (u u' : Utxos) (body : TxBody) (height i : ℕ) (xs : List TxInput) (ws : List Witness)
      (acc : ℕ)
      → All (λ x. get x.prevout u' ≡ get x.prevout u) xs
      → check_inputs p params (lookup_in u') body height i xs ws acc tt
        ≡ check_inputs p params (lookup_in u) body height i xs ws acc tt
  unfolding check_inputs
  check_inputs-lookup u u' body height i [] ws acc h = refl
  check_inputs-lookup u u' body height i (x ∷ xs) [] acc h = refl
  check_inputs-lookup u u' body height i (x ∷ xs) (w ∷ ws) acc (h, hs) = rw h (
      >>=-congr (ok_or (get x.prevout u) _) (λ v.
        >>-congr (check_input p params body height i w v) (λ _.
          >>=-congr (ok_or (checked_add acc v.output.amount) _)
            (λ acc'. check_inputs-lookup u u' body height (suc i) xs ws acc' hs))))

  apply_txs-step :
      (tx : Transaction) (txs : List Transaction) (height fees fee : ℕ) (u : Utxos)
      → is_coinbase tx.body ≡ false
      → check_tx p params (lookup_in u) tx height tt ≡ ok fee
      → fees + fee < u64_mod
      → apply_txs p params height (tx ∷ txs) fees u
        ≡ apply_txs p params height txs (fees + fee) (apply_tx p params tx height u)
  unfolding apply_txs ◌>>=◌ ◌>>◌ refuse_if ok_or checked_add
  apply_txs-step tx txs height fees fee u c h b =
      let fits : ltb (fees + fee) u64_mod ≡ true = ground arith in rw (c, h, fits) refl

  check_tx-lookup :
      (u u' : Utxos) (tx : Transaction) (height : ℕ)
      → All (λ x. get x.prevout u' ≡ get x.prevout u) tx.body.inputs
      → check_tx p params (lookup_in u') tx height tt ≡ check_tx p params (lookup_in u) tx height tt
  unfolding check_tx
  check_tx-lookup u u' tx height h =
      rw (check_inputs-lookup u u' tx.body height 0 tx.body.inputs tx.witnesses 0 h) refl

  apply_tx-Agree :
      (u cur : Utxos) (included : List Transaction) (tx : Transaction) (height : ℕ)
      → IsNew p u tx
      → Agree u cur included
      → Agree u (apply_tx p params tx height cur) (tx ∷ included)
  unfolding apply_tx
  apply_tx-Agree u cur included tx height new a op v g (unspent, untouched) =
      get-add_outputs op (txid p.digest tx.body) height false 0 tx.body.outputs
        (spend_inputs tx.body.inputs cur) (new op v g)
      ∙ (get-spend_inputs op tx.body.inputs cur unspent ∙ a op v g untouched)

module _ (p : Primitives) (s : ChainState) where
  include-skip :
      (tx : Transaction) (txs included : List Transaction) (fees budget : ℕ)
      → fee_if included budget tx (validate_standalone_tx p s tx) ≡ none
      → include p s included fees budget (tx ∷ txs) ≡ include p s included fees budget txs
  unfolding include
  include-skip tx txs included fees budget e = rw (include, e) refl

  include-take :
      (tx : Transaction) (txs included : List Transaction) (fees budget fee : ℕ)
      → fee_if included budget tx (validate_standalone_tx p s tx) ≡ some fee
      → fees + fee < u64_mod
      → include p s included fees budget (tx ∷ txs) ≡ (
        tx ∷ (include p s (tx ∷ included) (fees + fee) (budget - size tx) txs).0,
        (include p s (tx ∷ included) (fees + fee) (budget - size tx) txs).1,
      )
  unfolding include
  include-take tx txs included fees budget fee e h =
      let exact : (fees + fee) % u64_mod ≡ fees + fee = omega arith in
      let q =
        ap
          (λ n. (
            tx ∷ (include p s (tx ∷ included) n (budget - size tx) txs).0,
            (include p s (tx ∷ included) n (budget - size tx) txs).1,
          ))
          exact in
      rw (include, e) q

  -- Whatever the candidates are, the block's loop accepts what the template includes of them, with
  -- the template's fees.
  pub include-apply_txs :
      (txs included : List Transaction) (fees budget : ℕ) (cur : Utxos)
      → value s.utxos < u64_mod
      → All (IsNew p s.utxos) txs
      → Agree s.utxos cur included
      → value cur + fees ≤ value s.utxos
      → (u' : Utxos) × (apply_txs p s.params
            (chain_height s + 1)
            (include p s included fees budget txs).0
            fees
            cur
          ≡ ok ((include p s included fees budget txs).1, u'))
  unfolding apply_txs include
  include-apply_txs [] included fees budget cur b n a v = (cur, refl)
  include-apply_txs (tx ∷ txs) included fees budget cur b (n, ns) a v =
      elim (Option-cases (fee_if included budget tx (validate_standalone_tx p s tx))) [
        | inl left_out ↦
            rw (include-skip tx txs included fees budget left_out)
              (include-apply_txs txs included fees budget cur b ns a v)
        | inr (fee, taken) ↦
            let (valid, small, apart) = fee_if-eq-some included budget tx _ fee taken in
            let (not_coinbase, checked) =
              >>-eq-ok (refuse_if (is_coinbase tx.body) no_inputs) _
                (sym (validate_standalone_tx-check_tx p s tx) ∙ valid) in
            let accepted =
              check_tx-Accepted p s.params s.utxos tx (chain_height s + 1) fee checked in
            let same =
              Provide-Agree s.utxos cur included tx.body.inputs _ a accepted.provided
                (conflicts-false included tx apart) in
            let now =
              check_tx-lookup p s.params s.utxos cur tx (chain_height s + 1) same ∙ checked in
            let paid = value-apply_tx p s.params tx (chain_height s + 1) fee cur now in
            let fits : fees + fee < u64_mod = omega arith in
            let cur' = apply_tx p s.params tx (chain_height s + 1) cur in
            let (u', rest) =
              include-apply_txs txs (tx ∷ included) (fees + fee) (budget - size tx) cur' b ns
                (apply_tx-Agree p s.params s.utxos cur included tx (chain_height s + 1) n a)
                (omega arith) in
            let step =
              apply_txs-step p s.params tx
                (include p s (tx ∷ included) (fees + fee) (budget - size tx) txs).0
                (chain_height s + 1) fees fee cur (refuse_if-eq-ok _ _ not_coinbase) now fits in
            (u', rw (include-take tx txs included fees budget fee taken fits) (step ∙ rest))
      ]
