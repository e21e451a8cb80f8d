-- ===== src/Node.antt =====
-- The node: node/src.
pub mod ChainSpec
pub mod Benchmarking
pub mod Tasks
pub mod Substrate
pub mod Service
pub mod Command
pub mod Rpc
