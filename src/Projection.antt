-- ===== src/Projection.antt =====
-- src/nvidia/table.rs and src/nvidia/projection.rs: the measured rates, the census of a loop's
-- operations and its projection.
pub mod Listed
pub mod Census
pub mod Tally
pub mod Rates
pub mod Peak
pub mod Filled
pub mod Tables
pub mod Demand
pub mod Fold
pub mod Project
pub mod Flagged
pub mod Reported
mod Tests
