-- ===== src/Validity.antt =====
-- src/validity.rs: which projections may gate a decision.
pub mod Authority
pub mod Fit
pub mod Registry
pub mod Loaded
mod OwnPoint
pub mod Covered
pub mod Certified
pub mod Command
mod Tests
