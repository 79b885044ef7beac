-- ===== src/Telemetry.antt =====
-- src/telemetry.rs: records that a kernel measures of itself, and the projections gated by them.
pub mod Record
pub mod Clock
pub mod Column
pub mod Summary
pub mod Ingest
mod Tests
