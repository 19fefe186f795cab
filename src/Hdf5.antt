-- ===== src/Hdf5.antt =====
-- The HDF5 files of src/grvy_hdf5.cpp.
pub mod Library
pub mod Types
pub mod Files
pub mod Objects
pub mod Attributes
pub mod Handler
pub mod Stale
pub mod Held
pub mod Released
pub mod Values
pub mod RoundTrip
pub mod Overwrite
pub mod Simulation
mod Tests
