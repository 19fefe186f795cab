-- ===== src/History/Entries.antt =====
-- The four public functions SaveHistTiming of src/grvy_timer.cpp: what each passes on.
use grvy.Base.{ℕ, Bool, true, false, List, Result}
use grvy.Base.Int.{ℤ, pos, negsuc}
use grvy.Base.Text.{Text, bytes}
use grvy.Timer.Types.{Accumulators, Timer}
use grvy.Hdf5.Library.{Library}
use grvy.Hdf5.Types.{H5}
use grvy.History.Types.{Packet, Value, TableCalls, Arguments}
use grvy.History.Save.{save_hist_timing}

-- What the functions take from their surroundings: the name of the host and its attributes, the
-- time as it is printed, the environment, whether it is saved, the double 0.0, and what is found in
-- the memory of a name that is gone.
pub record Surroundings (F : Type 0) : Type 0 where
  pub hostname : Text
  pub timestamp : Text
  pub environment : List Text
  pub os_sysname : Text
  pub os_release : Text
  pub os_version : Text
  pub cputype : Text
  pub stale_name : Text → Text
  pub output_printenv : Bool
  pub zero_flops : F

-- A run: what was measured, by how many processes, and where it is to be stored.
pub record Run : Type 0 where
  pub experiment : Text
  pub comment : Text
  pub num_procs : ℤ
  pub filename : Text

-- The further arguments of the expanded versions.
pub record Job (F : Type 0) : Type 0 where
  pub job_id : ℤ
  pub code_revision : Text
  pub flops : F

module _ {F : Type 0} where
  -- The members that the constructor of GRVY_Timer_Class sets.
  abbrev pub default_job : Surroundings F → Job F
  default_job env = record {
    job_id = negsuc 0;
    code_revision = bytes "unknown";
    flops = env.zero_flops;
  }

  abbrev pub arguments_of : Surroundings F → ℤ → Text → Run → Job F → Arguments F
  arguments_of env timing machine run job = record {
    timing = timing;
    machinename = machine;
    experiment = run.experiment;
    comment = run.comment;
    num_procs = run.num_procs;
    job_id = job.job_id;
    code_revision = job.code_revision;
    flops = job.flops;
    timestamp = env.timestamp;
    environment = env.environment;
    os_sysname = env.os_sysname;
    os_release = env.os_release;
    os_version = env.os_version;
    cputype = env.cputype;
    stale_name = env.stale_name;
  }

  -- The arguments with which the timers of this process are saved: no time, and this host.
  abbrev pub internal_arguments : Surroundings F → Run → Job F → Arguments F
  internal_arguments env run job = arguments_of env (pos 0) env.hostname run job

module _ {A S F : Type 0} (acc : Accumulators A) (clock : ℕ → ℤ) (lib : Library S Value)
    (calls : TableCalls S (Packet F)) (env : Surroundings F) where
  -- The expanded version for the timers of this process.
  unfoldable pub save_internal_exp : Run → Job F → Timer A → H5 S → Result (H5 S)
  save_internal_exp run job s h =
      save_hist_timing acc clock lib calls (internal_arguments env run job) run.filename true
        env.output_printenv s h

  unfoldable pub save_internal : Run → Timer A → H5 S → Result (H5 S)
  save_internal run s h =
      save_hist_timing acc clock lib calls (internal_arguments env run (default_job env))
        run.filename true env.output_printenv s h

  -- The expanded version for a time that the caller has measured.
  unfoldable pub save_external_exp : ℤ → Text → Run → Job F → Timer A → H5 S → Result (H5 S)
  save_external_exp timing machine run job s h =
      save_hist_timing acc clock lib calls (arguments_of env timing machine run job) run.filename
        false env.output_printenv s h

  unfoldable pub save_external : ℤ → Text → Run → Timer A → H5 S → Result (H5 S)
  save_external timing machine run s h =
      save_hist_timing acc clock lib calls (arguments_of env timing machine run (default_job env))
        run.filename false env.output_printenv s h
