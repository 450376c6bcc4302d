-- ===== src/Crypto/Keypair.antt =====
-- Key pairs of crates/crypto/src/lib.rs, over the fips204 and fips205 crates.
use summerpoem_cli.Prelude.{ℕ, true, List, length, ◌≡◌, refl}
use summerpoem_cli.Core.Tx.{SigScheme, ml_dsa, slh_dsa}
use summerpoem_cli.Crypto.{
  Primitives, mldsa_pubkey_len, mldsa_sig_len, slhdsa_pubkey_len, slhdsa_sig_len, sig_ctx, verify,
  verify_mldsa, verify_slhdsa,
}

-- The crates' key generation, from the seed of its random numbers to a public and a secret key, and
-- their signing, of a secret key, a message and a context. What a signature draws is left open.
pub record Signer : Type 0 where
  pub mldsa_keygen : List ℕ → List ℕ × List ℕ
  pub slhdsa_keygen : List ℕ → List ℕ × List ℕ
  pub mldsa_sign : List ℕ → List ℕ → List ℕ → List ℕ
  pub slhdsa_sign : List ℕ → List ℕ → List ℕ → List ℕ

pub data SecretKey : Type 0 where
  mldsa_key slhdsa_key : List ℕ → SecretKey

pub record Keypair : Type 0 where
  pub scheme : SigScheme
  pub public : List ℕ
  pub secret : SecretKey

module _ (k : Signer) where
  unfoldable pub from_seed : SigScheme → List ℕ → Keypair
  from_seed ml_dsa seed =
      let (pk, sk) = k.mldsa_keygen seed in
      record { scheme = ml_dsa; public = pk; secret = mldsa_key sk }
  from_seed slh_dsa seed =
      let (pk, sk) = k.slhdsa_keygen seed in
      record { scheme = slh_dsa; public = pk; secret = slhdsa_key sk }

  unfoldable pub sign_with : SecretKey → List ℕ → List ℕ
  sign_with (mldsa_key sk) msg = k.mldsa_sign sk msg sig_ctx
  sign_with (slhdsa_key sk) msg = k.slhdsa_sign sk msg sig_ctx

  unfoldable pub sign : Keypair → List ℕ → List ℕ
  sign kp msg = sign_with kp.secret msg

-- What the crates say of their keys and signatures: their lengths, and that a signature of a
-- generated key verifies.
pub record IsSigner (p : Primitives) (k : Signer) : Type 0 where
  pub mldsa_pk : (seed : List ℕ) → length (k.mldsa_keygen seed).0 ≡ mldsa_pubkey_len
  pub slhdsa_pk : (seed : List ℕ) → length (k.slhdsa_keygen seed).0 ≡ slhdsa_pubkey_len
  pub mldsa_sig : (sk msg ctx : List ℕ) → length (k.mldsa_sign sk msg ctx) ≡ mldsa_sig_len
  pub slhdsa_sig : (sk msg ctx : List ℕ) → length (k.slhdsa_sign sk msg ctx) ≡ slhdsa_sig_len
  pub mldsa_correct :
      (seed msg ctx : List ℕ)
      → p.mldsa_verify
          (k.mldsa_keygen seed).0
          msg
          (k.mldsa_sign (k.mldsa_keygen seed).1 msg ctx)
          ctx
        ≡ true
  pub slhdsa_correct :
      (seed msg ctx : List ℕ)
      → p.slhdsa_verify
          (k.slhdsa_keygen seed).0
          msg
          (k.slhdsa_sign (k.slhdsa_keygen seed).1 msg ctx)
          ctx
        ≡ true

pub verify-sign :
    (p : Primitives) (k : Signer)
    → IsSigner p k
    → (scheme : SigScheme) (seed msg : List ℕ)
    → verify p scheme (from_seed k scheme seed).public msg (sign k (from_seed k scheme seed) msg)
      ≡ true
unfolding verify verify_mldsa verify_slhdsa from_seed sign sign_with
verify-sign p k law ml_dsa seed msg = rw (law.mldsa_pk, law.mldsa_sig, law.mldsa_correct) refl
verify-sign p k law slh_dsa seed msg = rw (law.slhdsa_pk, law.slhdsa_sig, law.slhdsa_correct) refl
