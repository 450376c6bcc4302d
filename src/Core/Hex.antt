-- ===== src/Core/Hex.antt =====
-- The hex texts of crates/core/src/hash.rs, over the hex crate.
use summerpoem_cli.Prelude.{
  ℕ, ◌≡◌, refl, arith, true, ◌≤◌, ◌<◌, Option, none, some, List, length, ◌==◌, if◌then◌else◌, All,
}
use summerpoem_cli.Core.Encode.Words.{IsByte}
use summerpoem_cli.Core.Hash.{Hash256, IsHash}

-- `hex::encode`, and `hex::decode` without its errors.
pub record Hex : Type 0 where
  pub encode_hex : List ℕ → List ℕ
  pub decode_hex : List ℕ → Option (List ℕ)

-- The bytes, if there are as many of them: `try_into` an array.
unfoldable pub array_of : ℕ → Option (List ℕ) → Option (List ℕ)
array_of n none = none
array_of n (some bs) = if length bs == n then some bs else none

unfoldable pub to_hex : Hex → Hash256 → List ℕ
to_hex hex h = hex.encode_hex h

unfoldable pub from_hex : Hex → List ℕ → Option Hash256
unfolding array_of
from_hex hex s = array_of 32 (hex.decode_hex s)

-- A character that JSON writes as it is: printable, and neither a quote nor a backslash.
abbrev pub IsPlainChar : ℕ → Type 0
IsPlainChar c = (32 ≤ c) × (c < 127) × ¬ (c ≡ 34) × ¬ (c ≡ 92)

-- The crate reads back what it writes, which is letters and digits.
pub record IsHex (hex : Hex) : Type 0 where
  pub decodes : (bs : List ℕ) → All IsByte bs → hex.decode_hex (hex.encode_hex bs) ≡ some bs
  pub plain : (bs : List ℕ) → All IsPlainChar (hex.encode_hex bs)

pub array_of-some : (n : ℕ) (bs : List ℕ) → length bs ≡ n → array_of n (some bs) ≡ some bs
unfolding array_of
array_of-some n bs h = let e : (length bs == n) ≡ true = ground arith in rw e refl

pub from_hex-to_hex :
    (hex : Hex)
    → IsHex hex
    → (h : Hash256) → IsHash h
    → All IsByte h
    → from_hex hex (to_hex hex h) ≡ some h
unfolding from_hex to_hex
from_hex-to_hex hex law h n b = rw (law.decodes h b) (array_of-some 32 h n)
