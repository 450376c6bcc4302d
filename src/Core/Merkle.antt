-- ===== src/Core/Merkle.antt =====
-- crates/core/src/merkle.rs: the merkle root of a list of hashes, over an abstract digest.
use summerpoem_cli.Prelude.{
  ℕ, zero, suc, ◌%◌, List, [], ◌∷◌, ◌++◌, map, length, ltb, ◌==◌, if◌then◌else◌,
}
use summerpoem_cli.Prelude.Text.{bytes}
use summerpoem_cli.Core.Hash.{Hash256, zero_hash, sha3}
pub mod Root
pub mod Tree

-- `*layer.last()`, and `layer[0]`; both are read only where the layer has an item.
unfoldable pub last_or : Hash256 → List Hash256 → Hash256
last_or d [] = d
last_or d (h ∷ hs) = last_or h hs

unfoldable pub first : List Hash256 → Hash256
first [] = zero_hash
first (h ∷ hs) = h

-- `if layer.len() % 2 == 1 { layer.push(*layer.last()) }`
unfoldable pub pad : List Hash256 → List Hash256
pad layer = if length layer % 2 == 1 then layer ++ (last_or zero_hash layer ∷ []) else layer

module _ (digest : List ℕ → Hash256) where
  unfoldable pub leaf : Hash256 → Hash256
  leaf l = sha3 digest (bytes "sump/merkle/leaf" ∷ l ∷ [])

  unfoldable pub node : Hash256 → Hash256 → Hash256
  node a b = sha3 digest (bytes "sump/merkle/node" ∷ a ∷ b ∷ [])

  -- `chunks(2)` of a padded layer, each hashed.
  unfoldable pub pair_up : List Hash256 → List Hash256
  pair_up (a ∷ b ∷ rest) = node a b ∷ pair_up rest
  pair_up _ = []

  unfoldable pub next_layer : List Hash256 → List Hash256
  next_layer layer = pair_up (pad layer)

  -- The `while` loop. A round leaves fewer items, so as many rounds as items are enough.
  unfoldable pub climb : ℕ → List Hash256 → Hash256
  climb zero layer = first layer
  climb (suc fuel) layer =
      let above = climb fuel (next_layer layer) in
      if ltb 1 (length layer) then above else first layer

  unfoldable pub merkle_root : List Hash256 → Hash256
  merkle_root [] = sha3 digest (bytes "sump/merkle/empty" ∷ [])
  merkle_root (l ∷ leaves) = climb (length (l ∷ leaves)) (map leaf (l ∷ leaves))
