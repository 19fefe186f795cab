-- ===== src/Interface.antt =====
-- The C and Fortran interfaces: src/grvy_input_interface.cpp, src/grvy_timer_interface.cpp and
-- src/grvy_ramdisk_interface.cpp.
pub mod Parser
pub mod Calls
pub mod Fortran
pub mod Timers
pub mod Pool
mod Tests
