-- ===== src/Programs.antt =====
-- The programs around the library, of crates/cli and crates/wallet-cli: amounts as texts, the local
-- wallet commands, the wallet RPC of a node and the light wallet that uses it.
pub mod Amount
pub mod Json
pub mod Ledger
pub mod Rpc
pub mod Light
pub mod Start
pub mod Gpu
pub mod Rig
