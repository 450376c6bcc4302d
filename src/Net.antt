-- ===== src/Net.antt =====
-- crates/net: what nodes say to each other, and what a node does with what it is told.
pub mod Message
pub mod Address
pub mod Node
pub mod Transport
