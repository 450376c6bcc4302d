-- ===== src/Core/Hash.antt =====
-- crates/core/src/hash.rs: the 32-byte hash, and SHA3-256 over concatenated parts. The digest is
-- the sha3 crate's, so it is a parameter, and so is the extendable output of SHAKE-256; the number
-- of bytes that they return is a hypothesis where needed.
use summerpoem_cli.Prelude.{ℕ, ◌+◌, ◌*◌, ◌≡◌, List, [], ◌∷◌, ◌++◌, length, replicate}
use mathlib.Core.List.{foldl}

-- The bytes of `Hash256`; there are 32 of them.
abbrev pub Hash256 : Type 0
Hash256 = List ℕ

abbrev pub zero_hash : Hash256
zero_hash = replicate 32 0

abbrev pub IsHash : Hash256 → Type 0
IsHash h = length h ≡ 32

-- `U256::from_big_endian`
unfoldable pub to_u256 : Hash256 → ℕ
to_u256 = foldl (λ acc b. acc * 256 + b) 0

unfoldable pub concat : List (List ℕ) → List ℕ
concat [] = []
concat (p ∷ parts) = p ++ concat parts

-- `sha3`, over the digest of one byte string.
unfoldable pub sha3 : (List ℕ → Hash256) → List (List ℕ) → Hash256
unfolding concat
sha3 digest parts = digest (concat parts)

-- `shake256`, over the extendable output of one byte string: `xof input n` has `n` bytes.
unfoldable pub shake256 : (List ℕ → ℕ → List ℕ) → List (List ℕ) → ℕ → List ℕ
unfolding concat
shake256 xof parts n = xof (concat parts) n
