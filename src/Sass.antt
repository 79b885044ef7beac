-- ===== src/Sass.antt =====
-- src/nvidia/sass.rs: reading a disassembly, the hot loop of a function, and the census of its
-- operations.
pub mod Histogram
pub mod Scan
pub mod Functions
pub mod HotLoop
pub mod Largest
pub mod Picked
pub mod Mix
pub mod Counted
pub mod Kernels
pub mod Printed
pub mod Read
mod Tests
