-- ===== src/Node/CheckTx/Inputs.antt =====
-- What an accepted transaction has shown of its inputs and outputs.
use summerpoem_cli.Prelude.{
  ℕ, suc, ◌+◌, ◌-◌, ◌%◌, ◌^◌, ◌≤◌, ◌≡◌, refl, arith, true, false, Option, some, List, [], ◌∷◌, ltb,
  ◌==◌, All, Bool-cases, inl, inr,
}
use mathlib.Core.Path.{subst}
use summerpoem_cli.Prelude.Result.{
  ok, refuse_if, ok_or, >>=-eq-ok, >>-eq-ok, refuse_if-eq-ok, ok_or-eq-ok, ok-injective,
}
use summerpoem_cli.Prelude.Checked.{checked_add, u64_mod, checked_add-eq-some}
use summerpoem_cli.Prelude.Equality.{bytes_eq_iff}
use summerpoem_cli.Prelude.Dictionary.{get}
use summerpoem_cli.Core.Tx.{
  OutPoint, Lock, p2pkh, timelock, lock_pkh, lock_scheme, TxInput, TxOutput, TxBody, Witness,
  Transaction, sighash,
}
use summerpoem_cli.Core.Params.{Params}
use summerpoem_cli.Crypto.{Primitives, pubkey_hash, verify}
use summerpoem_cli.Node.Utxo.{Utxo, Utxos, outpoint_Eq, amount_of}
use summerpoem_cli.Node.Utxo.Value.{Fresh, Distinct, Provide, output_sum}
use summerpoem_cli.Node.CheckTx.{
  is_empty, spent_before, check_distinct, check_timelock, sum_outputs, check_input, check_inputs,
  check_tx,
}

-- None of the inputs spends an output of the ones before.
abbrev Clear : List TxInput → List TxInput → Type 0
Clear before inputs = All (λ y. spent_before y.prevout before ≡ false) inputs

Clear-uncons :
    (a : TxInput) (before inputs : List TxInput)
    → Clear (a ∷ before) inputs
    → Fresh a inputs × Clear before inputs
unfolding spent_before
Clear-uncons a before [] h = (tt, tt)
Clear-uncons a before (y ∷ inputs) (h, hs) =
    let (f, c) = Clear-uncons a before inputs hs in ((ground arith, f), (ground arith, c))

check_distinct-Clear :
    (before inputs : List TxInput)
    → check_distinct before inputs ≡ ok tt
    → Distinct inputs × Clear before inputs
unfolding check_distinct
check_distinct-Clear before [] h = (tt, tt)
check_distinct-Clear before (a ∷ inputs) h = elim (Bool-cases (spent_before a.prevout before)) [
  | inl spent ↦ absurd (let e = rw spent at h in cc)
  | inr fresh ↦
      let (d, c) = check_distinct-Clear (a ∷ before) inputs (rw fresh at h) in
      let (f, c') = Clear-uncons a before inputs c in ((f, d), (fresh, c'))
]

pub check_distinct-Distinct :
    (inputs : List TxInput) → check_distinct [] inputs ≡ ok tt → Distinct inputs
check_distinct-Distinct inputs h = (check_distinct-Clear [] inputs h).0

-- The lock lets its output be spent at the height.
abbrev pub Unlocked : ℕ → Lock → Type 0
Unlocked height (p2pkh scheme pkh) = Unit {0}
Unlocked height (timelock scheme pkh lock_h) = lock_h ≤ height

check_timelock-Unlocked :
    (height : ℕ) (l : Lock) → check_timelock height l ≡ ok tt → Unlocked height l
unfolding check_timelock
check_timelock-Unlocked height (p2pkh scheme pkh) h = tt
check_timelock-Unlocked height (timelock scheme pkh lock_h) h =
    ground (arith, refuse_if-eq-ok (ltb height lock_h) _ h)

pub sum_outputs-eq-ok :
    (acc : ℕ) (outputs : List TxOutput) (t : ℕ)
    → sum_outputs acc outputs ≡ ok t
    → (t ≡ acc + output_sum outputs) × All (λ o. 1 ≤ o.amount) outputs
unfolding sum_outputs output_sum
sum_outputs-eq-ok acc [] t h = (ground arith, tt)
sum_outputs-eq-ok acc (o ∷ outputs) t h =
    let (nonzero, h') = >>-eq-ok (refuse_if (o.amount == 0) _) _ h in
    let (acc', added, h'') = >>=-eq-ok (ok_or (checked_add acc o.amount) _) _ h' in
    let (e, _) = checked_add-eq-some acc o.amount (ok_or-eq-ok _ _ added) in
    let (s, a) = sum_outputs-eq-ok acc' outputs t h'' in
    (omega arith, (ground (arith, refuse_if-eq-ok _ _ nonzero), a))

module _ (p : Primitives) (params : Params) where
  -- The witness may spend the output at the height: a coinbase output is mature, a timelock has
  -- passed, the key is the one that the output names, and the signature on this input of this
  -- transaction verifies under the output's scheme.
  pub record MaySpend (body : TxBody) (height i : ℕ) (w : Witness) (v : Utxo) : Type 0 where
    pub mature : v.coinbase ≡ true → (v.height + params.coinbase_maturity) % u64_mod ≤ height
    pub unlocked : Unlocked height v.output.lock
    pub owned : pubkey_hash p w.pubkey ≡ lock_pkh v.output.lock
    pub signed :
        verify p
          (lock_scheme v.output.lock)
          w.pubkey
          (sighash p.digest body (i % 2 ^ 32) v.output)
          w.signature
        ≡ true

  pub check_input-MaySpend :
      (body : TxBody) (height i : ℕ) (w : Witness) (v : Utxo)
      → check_input p params body height i w v ≡ ok tt
      → MaySpend body height i w v
  unfolding check_input
  check_input-MaySpend body height i w v h =
      let (m, h₁) = >>-eq-ok (refuse_if _ _) _ h in
      let (l, h₂) = >>-eq-ok (check_timelock height v.output.lock) _ h₁ in
      let (o, h₃) = >>-eq-ok (refuse_if _ _) _ h₂ in
      let s = refuse_if-eq-ok _ _ h₃ in
      let m' = refuse_if-eq-ok _ _ m in
      let o' = refuse_if-eq-ok _ _ o in
      record {
        mature = λ c. ground arith;
        unlocked = check_timelock-Unlocked height v.output.lock l;
        owned = (bytes_eq_iff _ _).0 (ground arith);
        signed = ground arith;
      }

  -- Every input from index `i` on finds its output and may spend it.
  abbrev pub Authorised : TxBody → ℕ → Utxos → ℕ → List TxInput → List Witness → Type 0
  Authorised body height u i [] ws = Unit {0}
  Authorised body height u i (x ∷ xs) [] = ⊥
  Authorised body height u i (x ∷ xs) (w ∷ ws) =
      ((v : Utxo) × (get x.prevout u ≡ some v) × MaySpend body height i w v)
      × Authorised body height u (suc i) xs ws

-- The lookup that the block validation passes: the set itself.
abbrev pub lookup_in : Utxos → OutPoint → Unit {0} → Option Utxo × Unit {0}
lookup_in u op s = (get op u, s)

module _ (p : Primitives) (params : Params) (u : Utxos) where
  -- The loop over the inputs adds up amounts that the set holds, each of them authorised.
  check_inputs-eq-ok :
      (body : TxBody) (height i : ℕ) (xs : List TxInput) (ws : List Witness) (acc t : ℕ)
      → check_inputs p params (lookup_in u) body height i xs ws acc tt ≡ ok t
      → (n : ℕ) × (t ≡ acc + n) × Provide u xs n × Authorised p params body height u i xs ws
  unfolding check_inputs
  check_inputs-eq-ok body height i [] ws acc t h = (0, ground arith, refl, tt)
  check_inputs-eq-ok body height i (x ∷ xs) [] acc t h = absurd cc
  check_inputs-eq-ok body height i (x ∷ xs) (w ∷ ws) acc t h =
      let (v, found, h₁) = >>=-eq-ok (ok_or (get x.prevout u) _) _ h in
      let (passed, h₂) = >>-eq-ok (check_input p params body height i w v) _ h₁ in
      let (acc', added, h₃) = >>=-eq-ok (ok_or (checked_add acc v.output.amount) _) _ h₂ in
      let (n, e, provided, authorised) = check_inputs-eq-ok body height (suc i) xs ws acc' t h₃ in
      let (e', _) = checked_add-eq-some acc v.output.amount (ok_or-eq-ok _ _ added) in
      let g : get x.prevout u ≡ some v = ok_or-eq-ok _ _ found in
      (
        amount_of v + n,
        omega arith,
        (v, n, g, provided, refl),
        ((v, g, check_input-MaySpend p params body height i w v passed), authorised),
      )

  -- What acceptance with a fee shows of a transaction.
  pub record Accepted (tx : Transaction) (height fee : ℕ) : Type 0 where
    pub distinct : Distinct tx.body.inputs
    pub authorised : Authorised p params tx.body height u 0 tx.body.inputs tx.witnesses
    pub provided : Provide u tx.body.inputs (output_sum tx.body.outputs + fee)
    pub nonzero : All (λ o. 1 ≤ o.amount) tx.body.outputs
    pub has_inputs : is_empty tx.body.inputs ≡ false
    pub has_outputs : is_empty tx.body.outputs ≡ false

  -- An accepted transaction spends distinct outputs that the set holds, each with the right to
  -- spend it at this height, has outputs of no zero amount, and its inputs are worth exactly its
  -- outputs and the returned fee together.
  pub check_tx-Accepted :
      (tx : Transaction) (height fee : ℕ)
      → check_tx p params (lookup_in u) tx height tt ≡ ok fee
      → Accepted tx height fee
  unfolding check_tx
  check_tx-Accepted tx height fee h =
      let (a, h₁) = >>-eq-ok (refuse_if (is_empty tx.body.inputs) _) _ h in
      let (b, h₂) = >>-eq-ok (refuse_if (is_empty tx.body.outputs) _) _ h₁ in
      let (_, h₃) = >>-eq-ok (refuse_if _ _) _ h₂ in
      let (_, h₄) = >>-eq-ok (refuse_if _ _) _ h₃ in
      let (d, h₅) = >>-eq-ok (check_distinct [] tx.body.inputs) _ h₄ in
      let (in_total, i, h₆) = >>=-eq-ok (check_inputs p params _ tx.body height 0 _ _ 0 tt) _ h₅ in
      let (out_total, o, h₇) = >>=-eq-ok (sum_outputs 0 tx.body.outputs) _ h₆ in
      let (le, h₈) = >>-eq-ok (refuse_if (ltb in_total out_total) _) _ h₇ in
      let (n, e, pr, au) = check_inputs-eq-ok tx.body height 0 _ _ 0 in_total i in
      let (s, nz) = sum_outputs-eq-ok 0 tx.body.outputs out_total o in
      let test : ltb in_total out_total ≡ false = refuse_if-eq-ok _ _ le in
      let last : in_total - out_total ≡ fee = ok-injective h₈ in
      let total : n ≡ output_sum tx.body.outputs + fee = ground arith in
      record {
        distinct = check_distinct-Distinct tx.body.inputs d;
        authorised = au;
        provided = subst (Provide u tx.body.inputs) total pr;
        nonzero = nz;
        has_inputs = refuse_if-eq-ok _ _ a;
        has_outputs = refuse_if-eq-ok _ _ b;
      }
