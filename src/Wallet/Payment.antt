-- ===== src/Wallet/Payment.antt =====
-- Payments pass the chain's `check_tx`.
use summerpoem_cli.Prelude.{
  ℕ, zero, suc, ◌+◌, ◌-◌, ◌%◌, ◌^◌, ◌≤◌, ◌<◌, ◌≡◌, refl, ap, ◌∙◌, arith, Bool, true, false, some,
  List, [], ◌∷◌, length, ltb, ◌==◌, ◌&&◌, All, inl, inr, Option-cases,
}
use summerpoem_cli.Prelude.Result.{ok, err, ◌>>=◌, ◌>>◌, refuse_if, ok_or}
use summerpoem_cli.Prelude.Lists.{filter_by, All-both}
use summerpoem_cli.Prelude.Checked.{checked_add, u64_mod}
use summerpoem_cli.Prelude.Equality.{bytes_eq_iff}
use summerpoem_cli.Prelude.Dictionary.{get, contains_key}
use summerpoem_cli.Core.Tx.{
  SigScheme, Lock, p2pkh, timelock, TxInput, TxBody, Witness, Transaction, sighash,
}
use summerpoem_cli.Core.Params.{Params}
use summerpoem_cli.Crypto.{Primitives}
use summerpoem_cli.Crypto.Keypair.{Signer, Keypair, IsSigner, sign}
use summerpoem_cli.Node.Utxo.{Utxo, Utxos, outpoint_Eq}
use summerpoem_cli.Node.Utxo.Value.{Fresh, Distinct}
use summerpoem_cli.Node.CheckTx.{
  is_empty, spent_before, check_distinct, check_timelock, sum_outputs, check_input, check_inputs,
  check_tx,
}
use summerpoem_cli.Node.CheckTx.Inputs.{lookup_in}
use summerpoem_cli.Wallet.{
  insufficient, Wallet, OwnedUtxo, id_Eq, id_of_lock, unlocked, spendable, inputs_of,
  sort_by_amount, select, owned, candidates, outputs_of, body_of, sign_inputs, pay, build_send,
}
use summerpoem_cli.Wallet.Select.{
  worth, IsDistinct, All-filter_by, All-sort_by_amount, All-select, filter_by-kept, worth-filter_by,
  worth-sort_by_amount, select-worth, worth-select, IsDistinct-filter_by, IsDistinct-sort_by_amount,
  IsDistinct-select,
}
use summerpoem_cli.Wallet.Keys.{owned-signs}

-- Distinct inputs that repeat none of those before pass.
Clear-next :
    (a : TxInput) (before inputs : List TxInput)
    → Fresh a inputs
    → All (λ y. spent_before y.prevout before ≡ false) inputs
    → All (λ y. spent_before y.prevout (a ∷ before) ≡ false) inputs
unfolding spent_before
Clear-next a before [] f c = tt
Clear-next a before (y ∷ inputs) (f, fs) (c, cs) = (rw f c, Clear-next a before inputs fs cs)

Distinct-check_distinct :
    (before inputs : List TxInput)
    → Distinct inputs
    → All (λ y. spent_before y.prevout before ≡ false) inputs
    → check_distinct before inputs ≡ ok tt
unfolding check_distinct
Distinct-check_distinct before [] d c = refl
Distinct-check_distinct before (a ∷ inputs) (f, d) (c, cs) =
    rw c (Distinct-check_distinct (a ∷ before) inputs d (Clear-next a before inputs f cs))

all-clear : (inputs : List TxInput) → All (λ y. spent_before y.prevout [] ≡ false) inputs
unfolding spent_before
all-clear [] = tt
all-clear (y ∷ inputs) = (refl, all-clear inputs)

unlocked-check_timelock :
    (l : Lock) (height : ℕ) → unlocked l height ≡ true → check_timelock height l ≡ ok tt
unfolding unlocked check_timelock refuse_if
unlocked-check_timelock (p2pkh scheme pkh) height h = refl
unlocked-check_timelock (timelock scheme pkh lock_h) height h = ground arith

-- The output of the chain that the wallet's one stands for.
abbrev pub entry : OwnedUtxo → Utxo
entry u = record { output = u.output; height = u.height; coinbase = u.coinbase }

some-inputs : (us : List OwnedUtxo) → 0 < worth us → is_empty (inputs_of us) ≡ false
unfolding is_empty inputs_of worth
some-inputs [] h = absurd (omega arith)
some-inputs (u ∷ us) h = refl

module _ (p : Primitives) (k : Signer) (law : IsSigner p k) (params : Params) (w : Wallet) where
  check_input-passes :
      (body : TxBody) (height i : ℕ) (u : OwnedUtxo) (kp : Keypair)
      → spendable u height params.coinbase_maturity ≡ true
      → get (id_of_lock u.output.lock) (owned p k w) ≡ some kp
      → check_input p params body height i
          (record {
            pubkey = kp.public;
            signature = sign k kp (sighash p.digest body (i % 2 ^ 32) u.output);
          })
          (entry u)
        ≡ ok tt
  unfolding check_input spendable refuse_if ◌>>◌ ◌>>=◌
  check_input-passes body height i u kp s g =
      let (owns, signs) =
        owned-signs p k law w u.output.lock kp (sighash p.digest body (i % 2 ^ 32) u.output) g in
      let same = (bytes_eq_iff _ _).1 owns in
      let free : unlocked u.output.lock height ≡ true = ground arith in
      let mature : (u.coinbase && ltb height ((u.height + params.coinbase_maturity) % u64_mod))
          ≡ false =
        ground arith in
      rw (mature, unlocked-check_timelock u.output.lock height free, same, signs) refl

  module _ (set : Utxos) (height : ℕ) where
    -- The set has the wallet's output, it may be spent at the height, and the wallet has its key.
    abbrev Suits : OwnedUtxo → Type 0
    Suits = λ u.
        (spendable u height params.coinbase_maturity ≡ true)
        × (contains_key (id_of_lock u.output.lock) (owned p k w) ≡ true)
        × (get u.outpoint set ≡ some (entry u))

    contained :
        (u : OwnedUtxo)
        → Suits u
        → (kp : Keypair) × (get (id_of_lock u.output.lock) (owned p k w) ≡ some kp)
    unfolding contains_key
    contained u (s, c, g) = elim (Option-cases (get (id_of_lock u.output.lock) (owned p k w))) [
      | inl e ↦ absurd (let e' = rw (contains_key, e) at c in cc)
      | inr found ↦ found
    ]

    sign_inputs-check_inputs :
        (body : TxBody) (i acc : ℕ) (us : List OwnedUtxo)
        → All Suits us
        → acc + worth us < u64_mod
        → (ws : List Witness) × (sign_inputs p k w body i us ≡ ok ws)
          × (length ws ≡ length (inputs_of us))
          × (check_inputs p params (lookup_in set) body height i (inputs_of us) ws acc tt
              ≡ ok (acc + worth us))
    unfolding sign_inputs check_inputs inputs_of worth ◌>>=◌ ◌>>◌ ok_or checked_add
    sign_inputs-check_inputs body i acc [] h b = ([], refl, refl, ap ok (omega arith))
    sign_inputs-check_inputs body i acc (u ∷ us) (s, hs) b =
        let (kp, found) = contained u s in
        let (ws, signed, len, checked) =
          sign_inputs-check_inputs body (suc i) (acc + u.output.amount) us hs (omega arith) in
        let passed = check_input-passes body height i u kp s.0 found in
        let fits : ltb (acc + u.output.amount) u64_mod ≡ true = ground arith in
        let total : acc + u.output.amount + worth us ≡ acc + (u.output.amount + worth us) =
          omega arith in
        let witness : Witness = record {
          pubkey = kp.public;
          signature = sign k kp (sighash p.digest body (i % 2 ^ 32) u.output);
        } in
        (
          witness ∷ ws,
          rw (found, signed) refl,
          ap suc len,
          rw (s.2, passed, fits, checked, total) refl,
        )

  some-outputs :
      (to_scheme : SigScheme) (to_pkh : List ℕ) (amount change : ℕ)
      → is_empty (outputs_of p k w to_scheme to_pkh amount change) ≡ false
  unfolding outputs_of is_empty
  some-outputs to_scheme to_pkh amount change = refl

  outputs-sum :
      (to_scheme : SigScheme) (to_pkh : List ℕ) (amount change : ℕ)
      → 0 < amount
      → amount + change < u64_mod
      → sum_outputs 0 (outputs_of p k w to_scheme to_pkh amount change) ≡ ok (amount + change)
  unfolding outputs_of sum_outputs refuse_if ◌>>=◌ ◌>>◌ ok_or checked_add
  outputs-sum to_scheme to_pkh amount zero a b = ground arith
  outputs-sum to_scheme to_pkh amount (suc change) a b = ground arith

  module _ (set : Utxos) (height : ℕ) where
    pay-check_tx :
        (to_scheme : SigScheme) (to_pkh : List ℕ) (amount fee total : ℕ) (us : List OwnedUtxo)
        → 0 < amount
        → amount + fee ≤ total
        → total ≡ worth us
        → worth us < u64_mod
        → IsDistinct us
        → All (Suits set height) us
        → (tx : Transaction) × (pay p k w to_scheme to_pkh amount (amount + fee) (us, total)
            ≡ ok tx)
          × (check_tx p params (lookup_in set) tx height tt ≡ ok fee)
    unfolding pay check_tx body_of ◌>>=◌ ◌>>◌ refuse_if is_empty
    pay-check_tx to_scheme to_pkh amount fee total us a enough e b d h =
        let change = total - (amount + fee) in
        let body = body_of p k w to_scheme to_pkh amount change us in
        let (ws, signed, len, checked) =
          sign_inputs-check_inputs set height body 0 0 us h (omega arith) in
        let test : ltb total (amount + fee) ≡ false = ground arith in
        let some_input : is_empty (inputs_of us) ≡ false = some-inputs us (omega arith) in
        let some_output = some-outputs to_scheme to_pkh amount change in
        let from_zero : 0 + worth us ≡ worth us = omega arith in
        let checked' = checked ∙ ap ok from_zero in
        let same_length : (length ws == length (inputs_of us)) ≡ true = ground arith in
        let distinct = Distinct-check_distinct [] (inputs_of us) d (all-clear (inputs_of us)) in
        let sum = outputs-sum to_scheme to_pkh amount change a (omega arith) in
        let covered : ltb (worth us) (amount + change) ≡ false = ground arith in
        let exact : worth us - (amount + change) ≡ fee = omega arith in
        (
          record { body = body; witnesses = ws },
          rw (test, signed) refl,
          rw (some_input, some_output, same_length, distinct, checked', sum, covered, exact) refl,
        )

    -- Where a wallet's spendable outputs are worth the amount and the fee, `build_send` returns a
    -- transaction, and the chain's check accepts it at this height with exactly the fee. The wallet's
    -- outputs are distinct, as the chain's set has them, and worth less than 2 ^ 64 together; the
    -- amount is not zero. The signature crates are assumed to give keys and signatures of their
    -- lengths, and signatures that verify.
    pub build_send-check_tx :
        (utxos : List OwnedUtxo) (to_scheme : SigScheme) (to_pkh : List ℕ) (amount fee : ℕ)
        → All (λ u. get u.outpoint set ≡ some (entry u)) utxos
        → IsDistinct utxos
        → worth utxos < u64_mod
        → 0 < amount
        → amount + fee ≤ worth (candidates p k w utxos height params.coinbase_maturity)
        → (tx : Transaction) × (build_send p k w utxos height params.coinbase_maturity to_scheme
              to_pkh amount fee
            ≡ ok tx)
          × (check_tx p params (lookup_in set) tx height tt ≡ ok fee)
    unfolding build_send candidates ◌>>=◌ ok_or checked_add
    build_send-check_tx utxos to_scheme to_pkh amount fee known d b a enough =
        let fit : OwnedUtxo → Bool = λ u. spendable u height params.coinbase_maturity in
        let mine : OwnedUtxo → Bool = λ u. contains_key (id_of_lock u.output.lock) (owned p k w) in
        let ready = filter_by fit utxos in
        let ours = filter_by mine ready in
        let small : worth (sort_by_amount ours) < u64_mod = omega (
          arith,
          worth-sort_by_amount ours,
          worth-filter_by mine ready,
          worth-filter_by fit utxos,
        ) in
        let all : All (Suits set height) ours =
          All-both _ _ (Suits set height) ours (λ u a bc. (a, bc.0, bc.1))
            (All-filter_by _ mine ready (filter_by-kept fit utxos))
            (All-both _ _ (λ u. (mine u ≡ true) × (get u.outpoint set ≡ some (entry u))) ours
              (λ u b c. (b, c)) (filter_by-kept mine ready)
              (All-filter_by _ mine ready (All-filter_by _ fit utxos known))) in
        let distinct = IsDistinct-filter_by mine ready (IsDistinct-filter_by fit utxos d) in
        let r = select (amount + fee) 0 (sort_by_amount ours) in
        let (exact, or_all) = select-worth (amount + fee) 0 (sort_by_amount ours) (omega arith) in
        let less = worth-select (amount + fee) 0 (sort_by_amount ours) in
        let reached : amount + fee ≤ r.1 = elim or_all [
          | inl e ↦ e
          | inr e ↦ let same = ap worth e in omega arith
        ] in
        let fits : ltb (amount + fee) u64_mod ≡ true = ground arith in
        rw fits (
          pay-check_tx to_scheme to_pkh amount fee r.1 r.0 a reached (omega arith) (omega arith)
            (IsDistinct-select (amount + fee) 0 _ (IsDistinct-sort_by_amount ours distinct))
            (All-select (Suits set height) (amount + fee) 0 _
              (All-sort_by_amount (Suits set height) ours all)))

module _ (p : Primitives) (k : Signer) (params : Params) (w : Wallet) (height : ℕ) where
  -- Where a wallet's spendable outputs are not worth the amount and the fee, `build_send` refuses
  -- and names what they are worth and what is needed. The wallet's outputs are worth less than
  -- 2 ^ 64 together, as are the amount and the fee.
  pub build_send-insufficient :
      (utxos : List OwnedUtxo) (to_scheme : SigScheme) (to_pkh : List ℕ) (amount fee : ℕ)
      → worth utxos < u64_mod
      → amount + fee < u64_mod
      → worth (candidates p k w utxos height params.coinbase_maturity) < amount + fee
      → build_send p k w utxos height params.coinbase_maturity to_scheme to_pkh amount fee
        ≡ err (
            insufficient
              (worth (candidates p k w utxos height params.coinbase_maturity))
              (amount + fee))
  unfolding build_send pay ◌>>=◌ ◌>>◌ refuse_if ok_or checked_add
  build_send-insufficient utxos to_scheme to_pkh amount fee b c short =
      let cs = candidates p k w utxos height params.coinbase_maturity in
      let fits : ltb (amount + fee) u64_mod ≡ true = ground arith in
      let (exact, or_all) = select-worth (amount + fee) 0 cs (omega arith) in
      let less = worth-select (amount + fee) 0 cs in
      let all : (select (amount + fee) 0 cs).1 ≡ worth cs = elim or_all [
        | inl e ↦ absurd (omega arith)
        | inr e ↦ let same = ap worth e in omega arith
      ] in
      let test : ltb (worth cs) (amount + fee) ≡ true = ground arith in rw (fits, all, test) refl
