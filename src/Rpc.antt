-- ===== src/Rpc.antt =====
-- crates/rpc: the client of the RPC protocol.
pub mod Client
pub mod Source
pub mod Lanes
