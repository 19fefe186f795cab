-- ===== src/Input.antt =====
-- The input files of src/grvy_input.cpp.
pub mod Types
pub mod Calls
pub mod Reads
pub mod Precedence
pub mod Vectors
pub mod Dump
pub mod Lifecycle
mod Tests
