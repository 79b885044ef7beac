-- ===== src/Check.antt =====
-- src/nvidia/check.rs: whether the timed loops of the bench kernels hold the operations that they time.
pub mod Tables
pub mod Bespoke
pub mod Cases
pub mod Purity
pub mod Passed
pub mod Shares
pub mod ShareOf
pub mod Matched
mod Tests
