-- ===== src/Service.antt =====
-- The service, service/src: jobs and their statuses (internal/job.rs, internal/error.rs), what it
-- takes from libraries and the prover, the runner (internal/runner.rs).
pub mod Job
pub mod Action
pub mod Platform
pub mod Runner
pub mod Memory
pub mod Fixtures
mod Examples
