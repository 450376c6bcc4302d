-- ===== src/Wallet/Keys.antt =====
-- The keys that a wallet finds for an output sign for it.
use summerpoem_cli.Prelude.{
  ℕ, zero, suc, ◌≡◌, refl, sym, ap, ◌∙◌, arith, true, some, List, [], ◌∷◌, ◌++◌, All, Bool-cases,
  inl, inr,
}
use mathlib.Core.Path.{subst}
use summerpoem_cli.Prelude.Dictionary.{Dictionary, get, insert, get-insert}
use summerpoem_cli.Core.Tx.{SigScheme, ml_dsa, slh_dsa, scheme_id, Lock, lock_scheme, lock_pkh}
use summerpoem_cli.Crypto.{Primitives, pubkey_hash, verify}
use summerpoem_cli.Crypto.Keypair.{Signer, Keypair, IsSigner, from_seed, sign, verify-sign}
use summerpoem_cli.Wallet.{
  Wallet, KeyId, id_eq, id_eq_iff, id_Eq, id_of_lock, key, keys_from, keys, id_of, insert_keys,
  owned,
}

module _ (p : Primitives) (k : Signer) where
  -- The key pair has been generated from a seed.
  abbrev IsGenerated : Keypair → Type 0
  IsGenerated kp = (scheme : SigScheme) × (seed : List ℕ) × (kp ≡ from_seed k scheme seed)

  -- Every entry is a generated pair, under its own id.
  abbrev AreKeys : Dictionary KeyId Keypair → Type 0
  AreKeys m =
      (id : KeyId) (kp : Keypair) → get id m ≡ some kp → (id_of p k kp ≡ id) × IsGenerated kp

  insert-AreKeys :
      (kp : Keypair) (m : Dictionary KeyId Keypair)
      → IsGenerated kp
      → AreKeys m
      → AreKeys (insert (id_of p k kp) kp m)
  insert-AreKeys kp m g a id kp' h =
      let e = sym (get-insert id (id_of p k kp) kp m) ∙ h in
      elim (Bool-cases (id_eq id (id_of p k kp))) [
        | inl same ↦
            let q : kp ≡ kp' = cc (rw same at e) in
            (
              ap (id_of p k) (sym q) ∙ sym ((id_eq_iff id (id_of p k kp)).0 same),
              subst IsGenerated q g,
            )
        | inr other ↦ a id kp' (rw other at e)
      ]

  insert_keys-AreKeys :
      (kps : List Keypair) (m : Dictionary KeyId Keypair)
      → All IsGenerated kps
      → AreKeys m
      → AreKeys (insert_keys p k kps m)
  unfolding insert_keys
  insert_keys-AreKeys [] m g a = a
  insert_keys-AreKeys (kp ∷ kps) m (g, gs) a =
      insert_keys-AreKeys kps (insert (id_of p k kp) kp m) gs (insert-AreKeys kp m g a)

  keys_from-IsGenerated :
      (w : Wallet) (scheme : SigScheme) (i n : ℕ) → All IsGenerated (keys_from p k w scheme i n)
  unfolding keys_from key
  keys_from-IsGenerated w scheme i zero = tt
  keys_from-IsGenerated w scheme i (suc n) =
      ((scheme, _, refl), keys_from-IsGenerated w scheme (suc i) n)

  All-append :
      (xs ys : List Keypair) → All IsGenerated xs → All IsGenerated ys → All IsGenerated (xs ++ ys)
  All-append [] ys h hs = hs
  All-append (x ∷ xs) ys (h, h') hs = (h, All-append xs ys h' hs)

  owned-AreKeys : (w : Wallet) → AreKeys (owned p k w)
  unfolding owned keys get
  owned-AreKeys w =
      insert_keys-AreKeys _ []
        (All-append _ _ (keys_from-IsGenerated w ml_dsa 0 w.file.next_index)
          (keys_from-IsGenerated w slh_dsa 0 w.file.next_index))
        (λ id kp h. absurd cc)

  from_seed-scheme :
      (scheme : SigScheme) (seed : List ℕ) → (from_seed k scheme seed).scheme ≡ scheme
  unfolding from_seed
  from_seed-scheme ml_dsa seed = refl
  from_seed-scheme slh_dsa seed = refl

  scheme_id-injective : (a b : SigScheme) → scheme_id a ≡ scheme_id b → a ≡ b
  unfolding scheme_id
  scheme_id-injective ml_dsa ml_dsa h = refl
  scheme_id-injective slh_dsa slh_dsa h = refl
  scheme_id-injective ml_dsa slh_dsa h = absurd (omega arith)
  scheme_id-injective slh_dsa ml_dsa h = absurd (omega arith)

  -- The key that a wallet holds for a lock has its hash, and its signatures verify under its scheme.
  pub owned-signs :
      IsSigner p k
      → (w : Wallet) (l : Lock) (kp : Keypair) (msg : List ℕ)
      → get (id_of_lock l) (owned p k w) ≡ some kp
      → (pubkey_hash p kp.public ≡ lock_pkh l)
        × (verify p (lock_scheme l) kp.public msg (sign k kp msg) ≡ true)
  unfolding id_of id_of_lock
  owned-signs law w l kp msg h =
      let (same, (scheme, seed, made)) = owned-AreKeys w (id_of_lock l) kp h in
      let s : kp.scheme ≡ lock_scheme l = scheme_id-injective _ _ (ap (λ x. x.0) same) in
      let t : scheme ≡ lock_scheme l =
        sym (from_seed-scheme scheme seed) ∙ ap (λ x. x.scheme) (sym made) ∙ s in
      (
        ap (λ x. x.1) same,
        subst (λ x. verify p x kp.public msg (sign k kp msg) ≡ true) t
            (subst (λ x. verify p scheme x.public msg (sign k x msg) ≡ true) (sym made)
              (verify-sign p k law scheme seed msg)),
      )
