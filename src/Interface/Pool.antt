-- ===== src/Interface/Pool.antt =====
-- The C functions of src/grvy_ramdisk_interface.cpp on a worker task. They share a pointer to one
-- object, which `grvy_ocore_finalize` deletes and does not reset. The functions for float, double, int
-- and long long int are one here.
use grvy.Base.{ℕ, Option, ◌==◌, if◌then◌else◌, Result, ok, fail, bad_access, ◌>>=◌}
use grvy.Ocore.Types.{Block}
use grvy.Ocore.Client.{num_active}
use grvy.Ocore.System.{System, sys_write, sys_read}
use grvy.Ocore.System.Pops.{sys_pop}

-- `_GRVY_Ocore`: NULL, an object, or the address of a deleted one.
pub data OcorePointer : Type 0 where
  null dangling : OcorePointer
  live : System → OcorePointer

-- `*_GRVY_Ocore`.
abbrev pub object : OcorePointer → Result System
object null = fail bad_access
object dangling = fail bad_access
object (live s) = ok s

module _ (construct : System) (initialize : System → Result (ℕ × System))
    (finalize : System → Result System) where
  -- `grvy_ocore_init` and `grvy_ocore_init_fortran`.
  unfoldable pub ocore_init : OcorePointer → Result (ℕ × OcorePointer)
  ocore_init null = do (code, s) ← initialize construct; ok (code, live s)
  ocore_init dangling = fail bad_access
  ocore_init (live s) = do (code, s') ← initialize s; ok (code, live s')

  -- `grvy_ocore_finalize`.
  unfoldable pub ocore_finalize : OcorePointer → Result OcorePointer
  ocore_finalize p = do s ← object p; s' ← finalize s; ok dangling

unfoldable pub ocore_write : ℕ → ℕ → Block → OcorePointer → Result (ℕ × OcorePointer)
ocore_write size_of offset block p = do
  s ← object p
  (code, s') ← sys_write s size_of offset block
  ok (code, live s')

unfoldable pub ocore_read : ℕ → OcorePointer → Result (Option Block × OcorePointer)
ocore_read offset p = do s ← object p; (block, s') ← sys_read s offset; ok (block, live s')

-- `grvy_ocore_pop_record_double` and the others: the index, with the block.
unfoldable pub ocore_pop : OcorePointer → Result (ℕ × Block × OcorePointer)
ocore_pop p = do s ← object p; (offset, block, s') ← sys_pop s; ok (offset, block, live s')

unfoldable pub ocore_master : OcorePointer → Result ℕ
ocore_master p = do s ← object p; ok (if s.client.mpi_rank_global == 0 then 1 else 0)

-- `isEnabled` is a member function, so the call of it needs an object.
unfoldable pub ocore_enabled : OcorePointer → Result ℕ
ocore_enabled null = fail bad_access
ocore_enabled dangling = fail bad_access
ocore_enabled (live s) = ok (if s.client.use_mpi_ocore then 1 else 0)

unfoldable pub ocore_num_active : OcorePointer → Result ℕ
ocore_num_active p = do s ← object p; ok (num_active s.client.rank_map)

unfoldable pub ocore_blocksize : OcorePointer → Result ℕ
ocore_blocksize p = do s ← object p; ok s.client.blocksize
