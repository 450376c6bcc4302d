-- ===== src/Crypto.antt =====
-- crates/crypto/src/lib.rs: key hashes and the choice of the verifier. The signature schemes and
-- the digest are other crates' (fips204, fips205, sha3), so they are fields of `Primitives`.
use summerpoem_cli.Prelude.{ℕ, Bool, false, List, [], ◌∷◌, length, take, ◌==◌, ◌&&◌, if◌then◌else◌}
use summerpoem_cli.Prelude.Text.{bytes}
use summerpoem_cli.Core.Hash.{Hash256, sha3}
use summerpoem_cli.Core.Tx.{SigScheme, ml_dsa, slh_dsa}
pub mod Keypair
pub mod Address

-- What the program takes from other crates. A verifier takes a public key, a message, a signature
-- and a context, and is false also where the key's bytes are no public key.
pub record Primitives : Type 0 where
  pub digest : List ℕ → Hash256
  pub mldsa_verify : List ℕ → List ℕ → List ℕ → List ℕ → Bool
  pub slhdsa_verify : List ℕ → List ℕ → List ℕ → List ℕ → Bool

abbrev pub mldsa_pubkey_len : ℕ
mldsa_pubkey_len = 1312

abbrev pub mldsa_sig_len : ℕ
mldsa_sig_len = 2420

abbrev pub slhdsa_pubkey_len : ℕ
slhdsa_pubkey_len = 32

abbrev pub slhdsa_sig_len : ℕ
slhdsa_sig_len = 7856

abbrev pub sig_ctx : List ℕ
sig_ctx = bytes "sump/v1"

module _ (p : Primitives) where
  unfoldable pub verify_mldsa : List ℕ → List ℕ → List ℕ → Bool
  verify_mldsa pubkey msg sig =
      if length pubkey == mldsa_pubkey_len && length sig == mldsa_sig_len
      then p.mldsa_verify pubkey msg sig sig_ctx
      else false

  unfoldable pub verify_slhdsa : List ℕ → List ℕ → List ℕ → Bool
  verify_slhdsa pubkey msg sig =
      if length pubkey == slhdsa_pubkey_len && length sig == slhdsa_sig_len
      then p.slhdsa_verify pubkey msg sig sig_ctx
      else false

  unfoldable pub verify : SigScheme → List ℕ → List ℕ → List ℕ → Bool
  verify ml_dsa pubkey msg sig = verify_mldsa pubkey msg sig
  verify slh_dsa pubkey msg sig = verify_slhdsa pubkey msg sig

  -- The first 20 bytes of the tagged hash of a public key.
  unfoldable pub pubkey_hash : List ℕ → List ℕ
  pubkey_hash pubkey = take 20 (sha3 p.digest (bytes "sump/pkh/v1" ∷ pubkey ∷ []))
