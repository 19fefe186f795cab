-- ===== src/Ocore/Ready/Sane.antt =====
-- A job that src/grvy_ramdisk.cpp has set up: what each task has, and that a worker can start to
-- write and read.
use mathlib.Core.Path.{subst}
use grvy.Base.{
  ℕ, ◌-◌, ◌*◌, ◌≤◌, ◌<◌, Bool, true, false, Option, none, some, ◌==◌, ◌≡◌, refl, sym, ap, ◌∙◌, ok,
  arith, Option-cases, inl, inr,
}
use grvy.Base.Int.{ℤ, pos, negsuc, beq_ℤ, ltb_ℤ}
use grvy.Base.Text.{Text, bytes}
use grvy.Input.Reads.{rounds}
use grvy.Ocore.Types.{IsSane}
use grvy.Ocore.Settings.{
  Settings, default_settings, key, Reader, check_settings, receive, config_of,
}
use grvy.Ocore.Job.{Task, Machine, split_tasks, constructed, initialize}
use grvy.Ocore.Options.{int_option, settings_in}
use grvy.Ocore.Ready.{view_of, ready_tasks, initialize-outcome}
use grvy.Ocore.System.Rounds.{SysInv, view}
use grvy.Ocore.System.Init.{init_system, init_system-SysInv}

pos_rounds : (x : ℤ) → ltb_ℤ (pos 0) x ≡ true → 0 < rounds x
pos_rounds (pos n) h = ground (arith, h)
pos_rounds (negsuc n) h = ground (arith, h)

module _ {G F D : Type 0} (r : Reader G F D) (machines : ℕ → Machine) (tenth : D)
    (stale : ℕ → Bool) where
  -- What the checks leave.
  record IsReady (num_ocore_tasks nprocs : ℕ) (tasks : ℕ → Task D) : Type 0 where
    master : Settings D
    some_task : 0 < num_ocore_tasks
    some_worker : num_ocore_tasks < nprocs
    ratio : r.is_ratio master.dump_watermark_ratio ≡ true
    pool : ltb_ℤ (pos 0) master.max_poolsize_mbs ≡ true
    block : ltb_ℤ (pos 0) master.blocksize ≡ true
    word : master.word_size ≡ 8
    are : tasks ≡ ready_tasks r machines tenth stale (nprocs - num_ocore_tasks) master

  initialize-IsReady :
      (file : Option Text) (num_ocore_tasks nprocs : ℕ) (tasks : ℕ → Task D)
      → r.double_eq r.double_def r.double_def ≡ true
      → initialize r machines tenth stale file num_ocore_tasks nprocs ≡ ok (0, tasks)
      → IsReady num_ocore_tasks nprocs tasks
  unfolding check_settings default_settings
  initialize-IsReady file num_ocore_tasks nprocs tasks hd run =
      let out = initialize-outcome r machines tenth stale file num_ocore_tasks nprocs hd in
      elim (Option-cases (view_of r file)) [
        | inl e ↦ absurd (ground (arith, out, run, e))
        | inr (g, e) ↦ record {
          master = settings_in r g (default_settings tenth (stale 0));
          some_task = ground (arith, out, run, e);
          some_worker = ground (arith, out, run, e);
          ratio = ground (arith, out, run, e);
          pool = ground (arith, out, run, e);
          block = ground (arith, out, run, e);
          word = refl;
          are = ground (arith, out, run, e);
        }
      ]

  -- The settings of a task other than the master.
  abbrev received : Settings D → Settings D
  received master = record master {
    use_mpi_ocore = true;
    use_disk_overflow = true;
    allow_empty_records = true;
    word_size = 8;
  }

  ocore_settings :
      (n nprocs rank : ℕ) (tasks : ℕ → Task D) (v : IsReady n nprocs tasks)
      → nprocs - n ≤ rank
      → ((tasks rank).settings ≡ received v.master) × ((tasks rank).is_ocore_task ≡ true)
  unfolding default_settings split_tasks receive
  ocore_settings n nprocs rank tasks v h =
      let some_worker = v.some_worker in
      let other : (rank == 0) ≡ false = ground arith in rw v.are (rw other (refl, ground arith))

  work_task :
      (n nprocs rank : ℕ) (tasks : ℕ → Task D)
      → IsReady n nprocs tasks
      → rank < nprocs - n
      → (tasks rank).is_work_task ≡ true
  unfolding split_tasks
  work_task n nprocs rank tasks v h = rw v.are (ground arith)

  received_config-IsSane :
      (num den : D → ℕ) (n nprocs : ℕ) (tasks : ℕ → Task D) (v : IsReady n nprocs tasks)
      → ((d : D) → r.is_ratio d ≡ true → (0 < num d) × (num d < den d))
      → IsSane (config_of num den (received v.master))
  unfolding config_of
  received_config-IsSane num den n nprocs tasks v frac = record {
    ratio_pos = (frac v.master.dump_watermark_ratio v.ratio).0;
    ratio_lt_one = (frac v.master.dump_watermark_ratio v.ratio).1;
    blocksize_pos = pos_rounds v.master.blocksize v.block;
    word_size_pos = omega arith;
  }

  -- Once `Initialize` has returned 0, all Ocore tasks work with the same settings, among them a ratio
  -- and a block size that passed the checks, and always with the overflow to disk; and a worker task
  -- with those Ocore tasks is in a state that keeps the invariant of writes and reads and sees no
  -- record, if the ratio of a full pool is a record or more. The ratio is a fraction.
  pub initialize-SysInv :
      (file : Option Text) (num_ocore_tasks nprocs : ℕ) (tasks : ℕ → Task D) (num den : D → ℕ)
      → r.double_eq r.double_def r.double_def ≡ true
      → ((d : D) → r.is_ratio d ≡ true → (0 < num d) × (num d < den d))
      → initialize r machines tenth stale file num_ocore_tasks nprocs ≡ ok (0, tasks)
      → let sr = nprocs - num_ocore_tasks in
        let cfg = config_of num den (tasks sr).settings in
        cfg.ratio_den ≤ cfg.ratio_num * cfg.max_num_records
        → ((rank : ℕ)
            → sr ≤ rank
            → ((tasks rank).is_ocore_task ≡ true)
              × (config_of num den (tasks rank).settings ≡ cfg)
              × (cfg.use_disk_overflow ≡ true))
          × ((rank : ℕ)
              → rank < sr
              → let s =
                  init_system cfg
                    (tasks rank).settings.allow_empty_records
                    rank
                    sr
                    num_ocore_tasks in
                ((tasks rank).is_work_task ≡ true) × SysInv s × ((o : ℕ) → view s o ≡ none))
  unfolding config_of
  initialize-SysInv file n nprocs tasks num den hd frac run room =
      let v = initialize-IsReady file n nprocs tasks hd run in
      let sr = nprocs - n in
      let some_worker = v.some_worker in
      let same = (ocore_settings n nprocs sr tasks v (omega arith)).0 in
      let cfg = config_of num den (tasks sr).settings in
      (
        λ rank h. (
          (ocore_settings n nprocs rank tasks v h).1,
          ap (config_of num den) ((ocore_settings n nprocs rank tasks v h).0 ∙ sym same),
          ap (λ m. m.use_disk_overflow) same,
        ),
        λ rank h.
            let (inv, _, sees) =
              init_system-SysInv cfg (tasks rank).settings.allow_empty_records rank sr n
                (subst (λ m. IsSane (config_of num den m)) (sym same)
                  (received_config-IsSane num den n nprocs tasks v frac))
                (ap (λ m. m.use_disk_overflow) same, room) (omega arith) v.some_task in
            (work_task n nprocs rank tasks v h, inv, sees),
      )

  -- With use_disk_overflow at 0 in the input file, the master task has the overflow disabled and the
  -- Ocore tasks, which would overflow, have it enabled.
  pub overflow_setting_ignored :
      (file : Option Text) (g : G) (num_ocore_tasks nprocs : ℕ) (tasks : ℕ → Task D)
      → r.double_eq r.double_def r.double_def ≡ true
      → view_of r file ≡ some g
      → r.ints.entry g (key (bytes "use_disk_overflow")) ≡ some (pos 0)
      → initialize r machines tenth stale file num_ocore_tasks nprocs ≡ ok (0, tasks)
      → ((tasks 0).settings.use_disk_overflow ≡ false)
        × ((rank : ℕ)
            → nprocs - num_ocore_tasks ≤ rank
            → (tasks rank).settings.use_disk_overflow ≡ true)
  unfolding split_tasks check_settings
  overflow_setting_ignored file g n nprocs tasks hd e off run =
      let out = initialize-outcome r machines tenth stale file n nprocs hd in
      let v = initialize-IsReady file n nprocs tasks hd run in
      let are : tasks
          ≡ ready_tasks r machines tenth stale (nprocs - n)
              (settings_in r g (constructed r machines tenth stale 0)) =
        ground (arith, out, run, e) in
      let disabled : beq_ℤ (int_option r g (bytes "use_disk_overflow") (pos 1)) (pos 1) ≡ false =
        ground (arith, off) in
      (
        rw are disabled,
        λ rank h. ap (λ m. m.use_disk_overflow) (ocore_settings n nprocs rank tasks v h).0,
      )
