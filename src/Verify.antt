-- ===== src/Verify.antt =====
-- sdk/src/verify.ts: verification through a Stellar RPC server.
pub mod Classify
pub mod Run
pub mod Stellar
pub mod Calls
pub mod Returned
pub mod OnChain
pub mod Batch
pub mod Fee
pub mod Registry
pub mod Config
pub mod Sends
pub mod OffChain
