-- ===== src/History/Types.antt =====
-- The packets of src/grvy_ptable.h, and what the HDF5 library does for a table of them.
use grvy.Base.{ℕ, Option, List}
use grvy.Base.Int.{ℤ}
use grvy.Base.Text.{Text}

-- `SubTimer_PTable_V1`.
pub record SubTimer : Type 0 where
  pub timer_name : Text
  pub measurement : ℤ
  pub mean : ℤ
  pub variance : ℤ
  pub count : ℕ

-- `TimerPTable_V1`, with its two arrays of variable length. F stands for the type of `flops`.
pub record Packet (F : Type 0) : Type 0 where
  pub experiment : Text
  pub timestamp : Text
  pub user_comment : Text
  pub total_time : ℤ
  pub num_procs : ℤ
  pub job_id : ℤ
  pub code_revision : Text
  pub flops : F
  pub env_variables : List Text
  pub subtimers : List SubTimer

-- An attribute of a host's group.
pub data Value : Type 0 where
  number : ℕ → Value
  string : Text → Value

-- H5Dcreate with an extent, H5Dwrite and H5Dread of one element, H5Dset_extent and H5Dclose.
pub record TableCalls (S P : Type 0) : Type 0 where
  pub d_create : ℤ → Text → ℕ → S → ℤ × S
  pub d_write : ℤ → ℕ → P → S → ℤ × S
  pub d_read : ℤ → ℕ → S → ℤ × Option P
  pub d_set_extent : ℤ → ℕ → S → S
  pub d_close : ℤ → S → S

-- The arguments of SaveHistTiming but the file, and what it takes from its surroundings: the time
-- as it is printed, the host's attributes, its environment, and what is found in the memory of a name
-- that is gone.
pub record Arguments (F : Type 0) : Type 0 where
  pub timing : ℤ
  pub machinename : Text
  pub experiment : Text
  pub comment : Text
  pub num_procs : ℤ
  pub job_id : ℤ
  pub code_revision : Text
  pub flops : F
  pub timestamp : Text
  pub environment : List Text
  pub os_sysname : Text
  pub os_release : Text
  pub os_version : Text
  pub cputype : Text
  pub stale_name : Text → Text
