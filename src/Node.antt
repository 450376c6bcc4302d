-- ===== src/Node.antt =====
-- crates/node: validation of transactions, blocks and chains.
pub mod Error
pub mod Utxo
pub mod CheckTx
pub mod Blocks
pub mod Chain
pub mod Mempool
pub mod Store
pub mod Miner
