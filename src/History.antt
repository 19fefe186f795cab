-- ===== src/History.antt =====
-- The historical timings of src/grvy_timer.cpp: tables of packets in HDF5 files.
pub mod Types
pub mod Packets
pub mod Tables
pub mod Save
pub mod Entries
pub mod Leaves
mod Tests
pub mod Statistics
