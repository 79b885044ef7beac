-- ===== src/Core.antt =====
-- The substrate-generic core, src/lib.rs.
pub mod Rounding
pub mod Occupancy
pub mod Block
pub mod Precision
pub mod Throughput
pub mod Latency
pub mod Template
pub mod Composition
pub mod Mix
pub mod Contention
mod Tests
