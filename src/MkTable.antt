-- ===== src/MkTable.antt =====
-- src/nvidia/mktable.rs: the measurements and the priors, gathered into the table of operations.
pub mod Median
pub mod Rows
pub mod Labels
pub mod Grouping
pub mod Values
pub mod Judge
pub mod Table
pub mod ReadBack
pub mod Parted
pub mod Longest
pub mod Middle
pub mod PriorOf
pub mod Verified
mod Tests
