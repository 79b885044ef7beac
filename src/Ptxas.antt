-- ===== src/Ptxas.antt =====
-- src/nvidia/ptxas.rs: the resource reports of the compiler, and the demands that they make.
pub mod Usage
pub mod Report
mod Tests
