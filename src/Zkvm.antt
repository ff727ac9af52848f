-- ===== src/Zkvm.antt =====
-- The code that host and guest share (zkVM/common/src/lib.rs), the guest program
-- (zkVM/sp1/program-chacha/src/main.rs) and the command line tool (zkVM/sp1/src/bin/cli.rs).
pub mod Primitives
pub mod Hex
pub mod Output
pub mod Program
pub mod Cli
pub mod Vkey
mod Examples
