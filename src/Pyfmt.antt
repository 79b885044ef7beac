-- ===== src/Pyfmt.antt =====
-- src/nvidia/pyfmt.rs: numbers as Python prints them.
pub mod General
pub mod Digits
pub mod Notation
pub mod Printed
mod Tests
