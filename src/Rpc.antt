-- ===== src/Rpc.antt =====
-- service/src/rpc: the JSON-RPC interface of a Celestia node as this repository declares it, with the
-- servers that stand in for it.
pub mod TxConfig
pub mod State
pub mod Blob
mod Examples
