-- ===== src/Ocore/Job.antt =====
-- `Initialize` of src/grvy_ramdisk.cpp on all tasks of a job. MPI_Abort on one task ends all of them.
use grvy.Base.{
  ℕ, zero, suc, ◌+◌, ◌-◌, Bool, true, false, not, Option, leb, ◌==◌, if◌then◌else◌, Result, ok,
  aborted, guard, ◌>>=◌, ◌>>◌,
}
use grvy.Base.Int.{pos, beq_ℤ}
use grvy.Base.Text.{Text}
use grvy.Ocore.Settings.{Settings, default_settings, Reader, read_enable, read_settings, receive}

-- A task after `Initialize`.
pub record Task (D : Type 0) : Type 0 where
  pub is_global_master : Bool
  pub is_ocore_master : Bool
  pub is_work_task : Bool
  pub is_ocore_task : Bool
  pub starting_rank : ℕ
  pub initialized : Bool
  pub settings : Settings D

-- The roles of a rank, where the Ocore tasks have the highest ones. The ranks in the communicator of
-- the Ocore tasks are in the order of the global ones.
unfoldable pub split_tasks : {D : Type 0} → ℕ → ℕ → Settings D → Task D
split_tasks starting_rank rank m = record {
  is_global_master = rank == 0;
  is_ocore_master = rank == starting_rank;
  is_work_task = not (leb starting_rank rank);
  is_ocore_task = leb starting_rank rank;
  starting_rank = starting_rank;
  initialized = false;
  settings = m;
}

-- What an Ocore task needs of its machine: a scratch directory with a file for the overflow
-- (grvy_create_unique_dir and fopen), and the memory of its pool.
pub record Machine : Type 0 where
  pub has_scratch : Bool
  pub has_memory : Bool

-- The part of an Ocore task. Without memory the program exits.
unfoldable pub set_up_pool : {D : Type 0} → Machine → Settings D → Result (Unit {0})
set_up_pool machine m =
    (if m.use_disk_overflow then guard machine.has_scratch aborted else ok tt)
    >> guard machine.has_memory aborted

-- That part on the n ranks from the i-th: a task that stops ends the job, and the others wait for all.
unfoldable pub set_up_pools :
    {D : Type 0} → (ℕ → Machine) → (ℕ → Settings D) → ℕ → ℕ → Result (Unit {0})
set_up_pools machines settings i zero = ok tt
set_up_pools machines settings i (suc n) =
    set_up_pool (machines i) (settings i) >> set_up_pools machines settings (i + 1) n

module _ {G F D : Type 0} (r : Reader G F D) (machines : ℕ → Machine) (tenth : D)
    (stale : ℕ → Bool) where
  -- What each task is constructed with; `stale` is what it finds in `dump_stats`.
  abbrev pub constructed : ℕ → Settings D
  constructed rank = default_settings tenth (stale rank)

  -- The settings of a task after the broadcasts.
  abbrev pub task_settings : Settings D → ℕ → Settings D
  task_settings master rank = if rank == 0 then master else receive master (constructed rank)

  -- The return code, which is 1 where Ocore is disabled, and the tasks by rank.
  unfoldable pub initialize : Option Text → ℕ → ℕ → Result (ℕ × (ℕ → Task D))
  unfolding split_tasks default_settings
  initialize file num_ocore_tasks nprocs = do
    guard (leb 1 num_ocore_tasks) aborted
    guard (leb (num_ocore_tasks + 1) nprocs) aborted
    let starting_rank = nprocs - num_ocore_tasks
    (enable, iparse) ← read_enable r file
    (if beq_ℤ enable (pos 1)
        then (do
          master ← read_settings r (constructed 0) iparse
          set_up_pools machines (task_settings master) starting_rank num_ocore_tasks
          ok (
            0,
            λ rank. record (split_tasks starting_rank rank (task_settings master rank)) {
              initialized = true;
            },
          ))
        else ok (
          1,
          λ rank.
              split_tasks starting_rank rank (record (constructed rank) { use_mpi_ocore = false }),
        ))
