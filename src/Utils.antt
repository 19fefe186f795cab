-- ===== src/Utils.antt =====
-- The utilities of src/grvy_utils.cpp.
pub mod FileSystem
pub mod Paths
pub mod Parents
pub mod Outcome
pub mod Removal
pub mod Copy
pub mod Removed
pub mod Scratch
pub mod Template
pub mod Cleaned
pub mod Tests
