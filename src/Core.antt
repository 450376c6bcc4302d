-- ===== src/Core.antt =====
-- crates/core: the encoding, transactions, blocks, the emission schedule and difficulty.
pub mod Emission
pub mod Encode
pub mod Hash
pub mod Hex
pub mod Tx
pub mod Merkle
pub mod Block
pub mod Params
pub mod Compact
pub mod Asert
