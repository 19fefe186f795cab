-- ===== src/Host.antt =====
-- The host name in src/grvy_env.cpp, the version number in src/grvy_classes.cpp, and the number of
-- digits in src/grvy_int.h.
pub mod Names
pub mod Digits
pub mod Tests
