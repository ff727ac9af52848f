-- ===== src/Service/Runner.antt =====
-- `PdaRunner`, service/src/internal/runner.rs: its state and its methods, in the child modules.
pub mod State
pub mod Setup
pub mod Jobs
pub mod Proving
pub mod Requests
pub mod Startup
pub mod Worker
pub mod Invariant
pub mod Steps
pub mod Answers
pub mod Lifecycle
pub mod Failures
pub mod Network
pub mod Interleaving
pub mod Registry
