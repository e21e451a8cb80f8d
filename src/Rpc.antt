-- ===== src/Rpc.antt =====
-- RPC: event-listener/src/rpc.
pub mod Params
pub mod Client
pub mod Methods
pub mod Jsonrpsee
