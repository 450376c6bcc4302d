-- ===== src/Programs/Ledger/Spend.antt =====
-- A payment from the local chain, and the balances that the programs show.
use summerpoem_cli.Prelude.{
  ℕ, ◌+◌, ◌-◌, ◌%◌, ◌≤◌, ◌≡◌, refl, ap, ◌∙◌, arith, inl, inr, Bool, true, false, ◌&&◌, ◌||◌, not,
  leb, none, some, List, [], ◌∷◌, map, All, Bool-cases,
}
use summerpoem_cli.Prelude.Lists.{filter_by}
use summerpoem_cli.Prelude.Checked.{u64_mod}
use summerpoem_cli.Prelude.Equality.{beq_refl}
use summerpoem_cli.Prelude.Dictionary.{
  Dictionary, get, contains_key, contains_key-insert, Unique, insert, total,
}
use summerpoem_cli.Core.Tx.{OutPoint, Lock, p2pkh, timelock}
use summerpoem_cli.Crypto.{Primitives}
use summerpoem_cli.Crypto.Keypair.{Signer, Keypair}
use summerpoem_cli.Node.Utxo.{Utxo, Utxos, outpoint_eq, outpoint_eq-flip, outpoint_Eq, value}
use summerpoem_cli.Node.Chain.{ChainState}
use summerpoem_cli.Node.Chain.Queries.{chain_height}
use summerpoem_cli.Wallet.{
  Wallet, OwnedUtxo, KeyId, id_Eq, id_of_lock, unlocked, spendable, add_balances, balances,
  insert_keys, id_of, keys, owned, owned_ids, inputs_of, candidates,
}
use summerpoem_cli.Wallet.Select.{worth, worth-sort_by_amount, IsDistinct, All-filter_by}
use summerpoem_cli.Wallet.Payment.{entry}
use summerpoem_cli.Programs.Ledger.{
  has_id, owned_entry, owned_utxos, unlocked_at, is_spendable, add_for, balances_for,
}

unlocked_at-unlocked : (l : Lock) (n : ℕ) → unlocked_at l n ≡ unlocked l n
unfolding unlocked_at unlocked
unlocked_at-unlocked (p2pkh s h) n = refl
unlocked_at-unlocked (timelock s h t) n = refl

is_spendable-spendable :
    (op : OutPoint) (u : Utxo) (n m : ℕ) → is_spendable u n m ≡ spendable (owned_entry op u) n m
unfolding is_spendable spendable owned_entry
is_spendable-spendable op u n m =
    ap (λ b. (not u.coinbase || leb ((u.height + m) % u64_mod) n) && b)
      (unlocked_at-unlocked u.output.lock n)

add_for-add_balances :
    (ids : List KeyId) (n m : ℕ) (utxos : Utxos) (s total : ℕ)
    → add_for ids n m utxos s total ≡ add_balances n m (owned_utxos ids utxos) s total
unfolding add_for add_balances owned_utxos
add_for-add_balances ids n m [] s total = refl
add_for-add_balances ids n m ((op, u) ∷ utxos) s total =
    elim (Bool-cases (has_id (id_of_lock u.output.lock) ids)) [
      | inl e ↦ rw (e, is_spendable-spendable op u n m) (add_for-add_balances ids n m utxos _ _)
      | inr e ↦ rw e (add_for-add_balances ids n m utxos s total)
    ]

-- The dashboard shows the balances that the wallet library computes from the same outputs.
pub balances_for-balances :
    (chain : ChainState) (ids : List KeyId)
    → balances_for chain ids
      ≡ balances
          (owned_utxos ids chain.utxos)
          (chain_height chain + 1)
          chain.params.coinbase_maturity
unfolding balances_for balances
balances_for-balances chain ids =
    ap (λ r. (r.0, (r.1 + (u64_mod - r.0)) % u64_mod))
      (add_for-add_balances ids (chain_height chain + 1) chain.params.coinbase_maturity chain.utxos
        0 0)

-- Each output of the set is listed once.
abbrev pub IsMap : Utxos → Type 0
IsMap [] = Unit {0}
IsMap ((op, u) ∷ utxos) = All (λ e. outpoint_eq e.0 op ≡ false) utxos × IsMap utxos

absent-All :
    (op : OutPoint) (utxos : Utxos)
    → get op utxos ≡ none
    → All (λ e. outpoint_eq e.0 op ≡ false) utxos
unfolding get
absent-All op [] h = tt
absent-All op ((o, u) ∷ utxos) h = elim (Bool-cases (outpoint_eq op o)) [
  | inl e ↦ absurd (let k = rw e at h in cc)
  | inr e ↦ (outpoint_eq-flip op o e, absent-All op utxos (rw e at h))
]

pub Unique-IsMap : (utxos : Utxos) → Unique utxos → IsMap utxos
Unique-IsMap [] h = tt
Unique-IsMap ((op, u) ∷ utxos) (f, h) = (absent-All op utxos f, Unique-IsMap utxos h)

All-owned_utxos :
    (P : OutPoint → Type 0) (ids : List KeyId) (utxos : Utxos)
    → All (λ e. P e.0) utxos
    → All (λ o. P o.outpoint) (owned_utxos ids utxos)
unfolding owned_utxos owned_entry
All-owned_utxos P ids [] h = tt
All-owned_utxos P ids ((op, u) ∷ utxos) (h, hs) =
    let rest = All-owned_utxos P ids utxos hs in
    elim (Bool-cases (has_id (id_of_lock u.output.lock) ids)) [
      | inl e ↦ rw e (h, rest)
      | inr e ↦ rw e rest
    ]

abbrev pub IsKnown : Utxos → OwnedUtxo → Type 0
IsKnown set o = get o.outpoint set ≡ some (entry o)

IsKnown-cons :
    (op : OutPoint) (u : Utxo) (utxos : Utxos) (os : List OwnedUtxo)
    → All (λ o. outpoint_eq o.outpoint op ≡ false) os
    → All (IsKnown utxos) os
    → All (IsKnown ((op, u) ∷ utxos)) os
unfolding get
IsKnown-cons op u utxos [] f h = tt
IsKnown-cons op u utxos (o ∷ os) (f, fs) (h, hs) = (rw f h, IsKnown-cons op u utxos os fs hs)

pub owned_utxos-IsKnown :
    (ids : List KeyId) (utxos : Utxos) → IsMap utxos → All (IsKnown utxos) (owned_utxos ids utxos)
unfolding owned_utxos owned_entry get
owned_utxos-IsKnown ids [] m = tt
owned_utxos-IsKnown ids ((op, u) ∷ utxos) (f, m) =
    let fresh = All-owned_utxos (λ o. outpoint_eq o op ≡ false) ids utxos f in
    let rest =
      IsKnown-cons op u utxos (owned_utxos ids utxos) fresh (owned_utxos-IsKnown ids utxos m) in
    elim (Bool-cases (has_id (id_of_lock u.output.lock) ids)) [
      | inl e ↦ rw e (rw (beq_refl op) refl, rest)
      | inr e ↦ rw e rest
    ]

Fresh-inputs :
    (op : OutPoint) (os : List OwnedUtxo)
    → All (λ o. outpoint_eq o.outpoint op ≡ false) os
    → All (λ y. outpoint_eq y.prevout op ≡ false) (inputs_of os)
unfolding inputs_of
Fresh-inputs op [] f = tt
Fresh-inputs op (o ∷ os) (f, fs) = (f, Fresh-inputs op os fs)

pub owned_utxos-IsDistinct :
    (ids : List KeyId) (utxos : Utxos) → IsMap utxos → IsDistinct (owned_utxos ids utxos)
unfolding owned_utxos owned_entry inputs_of
owned_utxos-IsDistinct ids [] m = tt
owned_utxos-IsDistinct ids ((op, u) ∷ utxos) (f, m) =
    let fresh = All-owned_utxos (λ o. outpoint_eq o op ≡ false) ids utxos f in
    let rest = owned_utxos-IsDistinct ids utxos m in
    elim (Bool-cases (has_id (id_of_lock u.output.lock) ids)) [
      | inl e ↦ rw e (Fresh-inputs op (owned_utxos ids utxos) fresh, rest)
      | inr e ↦ rw e rest
    ]

pub worth-owned_utxos :
    (ids : List KeyId) (utxos : Utxos) → worth (owned_utxos ids utxos) ≤ value utxos
unfolding owned_utxos owned_entry worth total
worth-owned_utxos ids [] = omega arith
worth-owned_utxos ids ((op, u) ∷ utxos) =
    let h = worth-owned_utxos ids utxos in
    elim (Bool-cases (has_id (id_of_lock u.output.lock) ids)) [
      | inl e ↦ rw e (omega arith)
      | inr e ↦ rw e (omega arith)
    ]

owned_utxos-has_id :
    (ids : List KeyId) (utxos : Utxos)
    → All (λ o. has_id (id_of_lock o.output.lock) ids ≡ true) (owned_utxos ids utxos)
unfolding owned_utxos owned_entry
owned_utxos-has_id ids [] = tt
owned_utxos-has_id ids ((op, u) ∷ utxos) =
    elim (Bool-cases (has_id (id_of_lock u.output.lock) ids)) [
      | inl e ↦ rw e (e, owned_utxos-has_id ids utxos)
      | inr e ↦ rw e (owned_utxos-has_id ids utxos)
    ]

filter_by-all :
    (keep : OwnedUtxo → Bool) (us : List OwnedUtxo)
    → All (λ u. keep u ≡ true) us
    → filter_by keep us ≡ us
unfolding filter_by
filter_by-all keep [] h = refl
filter_by-all keep (u ∷ us) (h, hs) = rw h (ap (λ l. u ∷ l) (filter_by-all keep us hs))

All-map :
    (P Q : OwnedUtxo → Type 0) (us : List OwnedUtxo)
    → ((u : OwnedUtxo) → P u → Q u)
    → All P us
    → All Q us
All-map P Q [] f h = tt
All-map P Q (u ∷ us) f (h, hs) = (f u h, All-map P Q us f hs)

module _ (p : Primitives) (k : Signer) where
  -- The wallet has the key of each of its ids.
  insert_keys-has_id :
      (id : KeyId) (kps : List Keypair) (m : Dictionary KeyId Keypair)
      → (has_id id (map (id_of p k) kps) || contains_key id m) ≡ true
      → contains_key id (insert_keys p k kps m) ≡ true
  unfolding has_id insert_keys
  insert_keys-has_id id [] m h = h
  insert_keys-has_id id (kp ∷ kps) m h =
      insert_keys-has_id id kps (insert (id_of p k kp) kp m)
        (ground (arith, contains_key-insert id (id_of p k kp) kp m))

  owned-has_id :
      (w : Wallet) (id : KeyId)
      → has_id id (owned_ids p k w) ≡ true
      → contains_key id (owned p k w) ≡ true
  unfolding owned owned_ids contains_key get
  owned-has_id w id h = insert_keys-has_id id (keys p k w) [] (rw h refl)

  -- Every spendable output of the wallet is a candidate.
  pub worth-candidates :
      (w : Wallet) (utxos : Utxos) (n m : ℕ)
      → let mine = owned_utxos (owned_ids p k w) utxos in
        worth (candidates p k w mine n m) ≡ worth (filter_by (λ u. spendable u n m) mine)
  unfolding candidates
  worth-candidates w utxos n m =
      let mine = owned_utxos (owned_ids p k w) utxos in
      let fit : OwnedUtxo → Bool = λ u. spendable u n m in
      let kept =
        All-filter_by (λ u. contains_key (id_of_lock u.output.lock) (owned p k w) ≡ true) fit mine
          (All-map (λ u. has_id (id_of_lock u.output.lock) (owned_ids p k w) ≡ true) _ mine
            (λ u. owned-has_id w (id_of_lock u.output.lock))
            (owned_utxos-has_id (owned_ids p k w) utxos)) in
      worth-sort_by_amount _ ∙ ap worth (filter_by-all _ (filter_by fit mine) kept)
