-- ===== src/Tests.antt =====
-- Concrete runs of the model, and the theorems at concrete inputs.
mod Run
mod Sample
mod Core
mod Chain
mod Mempool
mod Network
mod Miner
mod Peers
mod Transport
mod Programs
mod Rig
mod Wallet
