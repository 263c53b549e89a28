-- ===== src/Onchain.antt =====
-- onchain/: reading the chain's logs over RPC.
pub mod RpcError
pub mod LogChunks
pub mod Failover
pub mod PoolSync
mod Tests
