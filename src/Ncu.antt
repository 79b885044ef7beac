-- ===== src/Ncu.antt =====
-- src/nvidia/ncu.rs: the metrics of a profiler's export.
pub mod Export
pub mod Occupancy
mod Tests
