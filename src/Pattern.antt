-- ===== src/Pattern.antt =====
-- src/nvidia/pattern.rs: the matcher for kernel names, over the bytes of a text.
pub mod Syntax
pub mod Match
pub mod Search
pub mod Compile
pub mod Show
mod Tests
