-- ===== src/Ocore.antt =====
-- src/grvy_ramdisk.cpp: out-of-core storage of records on MPI tasks of their own. `Node` is an Ocore
-- task (pool, sparse map, overflow file), `Client` is the side of a worker task, and `Poll` is
-- the protocol between the two.
pub mod Types
pub mod Settings
pub mod Job
pub mod Options
pub mod Ready
pub mod Node
pub mod Slots
pub mod Views
pub mod Priority
pub mod Invariant
pub mod Touch
pub mod Store
pub mod Pull
pub mod Start
pub mod Poll
pub mod Refinement
pub mod LeastRead
pub mod Overflow
pub mod Client
pub mod Pop
pub mod Finalize
pub mod System
mod Tests
