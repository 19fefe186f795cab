-- ===== src/Gadd.antt =====
-- The command-line tool src/gadd.cpp.
pub mod Arguments
pub mod Parsing
mod Tests
