-- ===== src/Timer.antt =====
-- The performance timers of src/grvy_timer.cpp.
pub mod Types
pub mod Data
pub mod Calls
pub mod Queries
pub mod Regions
pub mod Steps
pub mod Around
pub mod Nesting
pub mod Times
pub mod Session
pub mod Summary
pub mod Keys
pub mod Options
pub mod Misuse
pub mod Tests
