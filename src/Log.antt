-- ===== src/Log.antt =====
-- The log of src/grvy_classes.cpp and src/grvy_log.cpp.
pub mod Calls
pub mod Output
pub mod Tests
