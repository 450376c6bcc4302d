-- ===== src/Crypto/Address.antt =====
-- The module `address` of crates/crypto/src/lib.rs, over the bech32 crate. Texts are their bytes.
use summerpoem_cli.Prelude.{
  ℕ, ◌≡◌, ◌≢◌, refl, arith, true, Option, none, some, List, [], ◌∷◌, length, ◌==◌, ◌||◌, not,
  if◌then◌else◌,
}
use summerpoem_cli.Prelude.Equality.{bytes_eq, bytes_Eq, beq_refl, beq-of_ne}
use summerpoem_cli.Core.Tx.{SigScheme, ml_dsa, slh_dsa, scheme_id, scheme_from_id}

-- `Hrp::parse` and `encode` of the crate, of a prefix and data, and its `decode`. `none` is an error.
pub record Bech32 : Type 0 where
  pub encode_text : List ℕ → List ℕ → Option (List ℕ)
  pub decode_text : List ℕ → Option (List ℕ × List ℕ)

abbrev pub version_mldsa : ℕ
version_mldsa = 0

abbrev pub version_slhdsa : ℕ
version_slhdsa = 1

unfoldable pub version_for : SigScheme → ℕ
version_for scheme = scheme_id scheme

unfoldable pub scheme_for_version : ℕ → Option SigScheme
scheme_for_version version = scheme_from_id version

scheme_for_version-version_for :
    (scheme : SigScheme) → scheme_for_version (version_for scheme) ≡ some scheme
unfolding scheme_for_version version_for scheme_from_id scheme_id
scheme_for_version-version_for ml_dsa = refl
scheme_for_version-version_for slh_dsa = refl

-- The result of `address::decode` by the decoded text.
unfoldable pub payload : List ℕ → Option (List ℕ × List ℕ) → Option (ℕ × List ℕ)
payload expect_hrp none = none
payload expect_hrp (some (hrp, [])) = none
payload expect_hrp (some (hrp, version ∷ pkh)) =
    if not (bytes_eq hrp expect_hrp) || not (length (version ∷ pkh) == 21)
    then none
    else some (version, pkh)

module _ (b : Bech32) where
  -- `none` is an `expect` that fails.
  unfoldable pub address_encode : List ℕ → ℕ → List ℕ → Option (List ℕ)
  address_encode hrp version pkh = b.encode_text hrp (version ∷ pkh)

  unfoldable pub address_decode : List ℕ → List ℕ → Option (ℕ × List ℕ)
  address_decode expect_hrp text = payload expect_hrp (b.decode_text text)

  -- The crate reads back what it has written under the prefix.
  abbrev pub ReadsBack : List ℕ → Type 0
  ReadsBack hrp =
      (bytes text : List ℕ)
      → b.encode_text hrp bytes ≡ some text
      → b.decode_text text ≡ some (hrp, bytes)

  -- The address of a key hash under a scheme leads back to both on its own network, and to nothing
  -- on a network of another prefix. The crate is assumed to read back what it writes under the prefix,
  -- as it does for a prefix in lower case.
  pub address_decode-address_encode :
      (hrp : List ℕ) (scheme : SigScheme) (pkh text : List ℕ)
      → ReadsBack hrp
      → length pkh ≡ 20
      → address_encode hrp (version_for scheme) pkh ≡ some text
      → (address_decode hrp text ≡ some (version_for scheme, pkh))
        × (scheme_for_version (version_for scheme) ≡ some scheme)
        × ((other : List ℕ) → hrp ≢ other → address_decode other text ≡ none)
  unfolding address_encode address_decode payload
  address_decode-address_encode hrp scheme pkh text law twenty e =
      let read = law (version_for scheme ∷ pkh) text e in
      let fits : (length (version_for scheme ∷ pkh) == 21) ≡ true = ground arith in
      (
        rw (read, beq_refl hrp, fits) refl,
        scheme_for_version-version_for scheme,
        λ other n. rw (read, beq-of_ne hrp other n) refl,
      )
