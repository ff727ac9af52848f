-- ===== src/Proxy.antt =====
-- The proxy, service/src/main.rs: JSON values, what it takes from outside, the handlers of requests
-- and responses, and the service function that joins them.
pub mod Json
pub mod Wire
pub mod Decrypt
pub mod Inbound
pub mod Outbound
pub mod Serve
pub mod Server
pub mod Trees
pub mod Submission
pub mod Retrieval
pub mod Startup
mod Fixtures
mod Examples
