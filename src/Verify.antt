-- ===== src/Verify.antt =====
-- src/nvidia/verify.rs: projections against measured cycles.
pub mod Rows
pub mod Judge
pub mod Passed
mod Tests
