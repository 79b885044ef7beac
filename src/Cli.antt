-- ===== src/Cli.antt =====
-- src/main.rs: the arguments, the commands and main.
pub mod Args
pub mod Items
pub mod Anchor
pub mod Gate
pub mod Outcome
pub mod Proven
pub mod Missing
mod Tests
mod Runs
pub mod Command
pub mod Chains
pub mod Kernels
pub mod Loops
pub mod Tables
pub mod Summary
pub mod Run
pub mod Ends
mod Opened
pub mod Launch
pub mod Strict
pub mod Written
pub mod Pure
