-- ===== src/Ocore/Ready.antt =====
-- The job after `Initialize` of src/grvy_ramdisk.cpp: when it is set up, and that its Ocore tasks and
-- workers can then be relied on.
pub mod Sane
mod Tests
use grvy.Base.{
  zero, suc, ◌&&◌, fail, assert_failed, ℕ, ◌+◌, ◌-◌, ◌*◌, ◌≤◌, ◌<◌, Bool, true, false, not, Option,
  none, some, [], leb, ◌==◌, ◌≡◌, refl, if◌then◌else◌, Result, ok, aborted, guard, ◌>>=◌, ◌>>◌,
  arith, Option-cases, Bool-cases, inl, inr,
}
use grvy.Base.Int.{ℤ, pos, beq_ℤ, ltb_ℤ}
use grvy.Base.Map.{find}
use grvy.Base.Text.{Text, bytes}
use grvy.Input.Types.{Input, GetPotFile, Kind}
use grvy.Input.Calls.{new_input, has_dos_newline, take_input, open_input, register_var}
use grvy.Input.Reads.{int_kind}
use grvy.Ocore.Settings.{
  Settings, default_settings, key, Reader, read_enable, read_settings, check_settings, receive,
}
use grvy.Ocore.Job.{
  Task, task_settings, Machine, set_up_pool, set_up_pools, split_tasks, constructed, initialize,
}
use grvy.Ocore.Options.{int_option, settings_in, read_chosen, found_last, read_settings-in}

module _ {G F D : Type 0} (r : Reader G F D) where
  -- GetPot's view of a file that can be opened, has no DOS newline and is not empty.
  abbrev pub view_of : Option Text → Option G
  view_of none = none
  view_of (some text) =
      if has_dos_newline text
      then none
      else if leb (r.getpot.size (r.getpot.parse text)) 1
      then none
      else some (r.getpot.parse text)

  abbrev opened_input : G → Input G F D
  opened_input g = record new_input { ifile = some g; initialized = true }

  abbrev enable_input : G → Input G F D
  enable_input g =
      register_var (int_kind r.ints) (key (bytes "enable_ocore")) (pos 0) (opened_input g)

  read_enable-none :
      (file : Option Text)
      → view_of file ≡ none
      → (s : Input G F D) × (read_enable r file ≡ ok (pos 0, s))
  unfolding read_enable open_input take_input
  read_enable-none none e = (new_input, refl)
  read_enable-none (some text) e =
      let s : Input G F D = (open_input r.getpot (some text) new_input).1 in (s, ground (arith, e))

  open_some :
      (file : Option Text) (g : G)
      → view_of file ≡ some g
      → open_input r.getpot file new_input ≡ (1, opened_input g)
  unfolding open_input take_input
  open_some none g e = absurd (cc e)
  open_some (some text) g e = ground (arith, e)

  read_enable-in :
      (file : Option Text) (g : G)
      → view_of file ≡ some g
      → read_enable r file ≡ ok (int_option r g (bytes "enable_ocore") (pos 0), enable_input g)
  unfolding read_enable register_var
  read_enable-in file g e =
      let k : Kind G F D ℤ = int_kind r.ints in
      let var = key (bytes "enable_ocore") in
      let run =
        read_chosen k var r.stale (pos 0) g (enable_input g) refl refl refl
          (found_last var (pos 0) []) in
      rw (open_some file g e) (rw run refl)

  module _ (machines : ℕ → Machine) (tenth : D) (stale : ℕ → Bool) where
    -- The tasks of a job that is set up, and of one where Ocore is disabled.
    abbrev pub ready_tasks : ℕ → Settings D → ℕ → Task D
    ready_tasks starting_rank master rank =
        record (split_tasks starting_rank rank (task_settings r machines tenth stale master rank)) {
          initialized = true;
        }

    abbrev pub disabled_tasks : ℕ → ℕ → Task D
    disabled_tasks starting_rank rank =
        split_tasks starting_rank rank
          (record (constructed r machines tenth stale rank) { use_mpi_ocore = false })

    -- The n machines from the i-th have a scratch file and the memory of a pool.
    abbrev pub equipped : ℕ → ℕ → Bool
    equipped i zero = true
    equipped i (suc n) =
        let rest = equipped (i + 1) n in (machines i).has_scratch && (machines i).has_memory && rest

    -- The ratio is one, and the sizes are positive.
    abbrev pub is_valid : Settings D → Bool
    is_valid m =
        r.is_ratio m.dump_watermark_ratio
        && ltb_ℤ (pos 0) m.max_poolsize_mbs
        && ltb_ℤ (pos 0) m.max_mapsize_mbs
        && ltb_ℤ (pos 0) m.blocksize

    set_up_pools-equipped :
        (m : Settings D) (i n : ℕ)
        → 1 ≤ i
        → set_up_pools machines (task_settings r machines tenth stale m) i n
          ≡ (if equipped i n then ok tt else fail aborted)
    unfolding set_up_pools set_up_pool receive default_settings
    set_up_pools-equipped m i zero h = refl
    set_up_pools-equipped m i (suc n) h =
        let rest = set_up_pools-equipped m (i + 1) n (omega arith) in ground (arith, h, rest)

    check_settings-is_valid :
        (m : Settings D) → check_settings r m ≡ (if is_valid m then ok tt else fail assert_failed)
    unfolding check_settings
    check_settings-is_valid m = ground arith

    -- `Initialize` aborts the job unless there are an Ocore task or more and another task. It returns 1
    -- and disables Ocore where the input file cannot be opened, has a DOS newline or is empty, and
    -- where enable_ocore is not 1 in it. Otherwise an assertion fails unless the ratio is one and the
    -- sizes of the pool, the map and a block are positive; the job is aborted unless every Ocore task
    -- has the memory for its pool and a scratch file; or it returns 0 with the settings of the file,
    -- the registered defaults standing in for those that it has not. The error for an option that
    -- cannot be read does not occur.
    pub initialize-outcome :
        (file : Option Text) (num_ocore_tasks nprocs : ℕ)
        → r.double_eq r.double_def r.double_def ≡ true
        → initialize r machines tenth stale file num_ocore_tasks nprocs ≡ (
            guard (leb 1 num_ocore_tasks) aborted
            >> (guard (leb (num_ocore_tasks + 1) nprocs) aborted >> elim (view_of file) [
              | none ↦ ok (1, disabled_tasks (nprocs - num_ocore_tasks))
              | some g ↦
                  let master = settings_in r g (constructed r machines tenth stale 0) in
                  if beq_ℤ (int_option r g (bytes "enable_ocore") (pos 0)) (pos 1)
                  then if is_valid master
                    then if equipped (nprocs - num_ocore_tasks) num_ocore_tasks
                      then ok (0, ready_tasks (nprocs - num_ocore_tasks) master)
                      else fail aborted
                    else fail assert_failed
                  else ok (1, disabled_tasks (nprocs - num_ocore_tasks))
            ]))
    unfolding initialize register_var
    initialize-outcome file num_ocore_tasks nprocs hd = elim (Option-cases (view_of file)) [
      | inl e ↦ let (s, read) = read_enable-none file e in rw (e, read) refl
      | inr (g, e) ↦
          let read = read_enable-in file g e in
          let master = settings_in r g (constructed r machines tenth stale 0) in
          let settings =
            read_settings-in r g (constructed r machines tenth stale 0) (enable_input g) hd refl
              refl in
          let valid = check_settings-is_valid master in
          elim (Bool-cases (leb (num_ocore_tasks + 1) nprocs)) [
            | inr few ↦ ground (arith, e, read, settings, few)
            | inl enough ↦
                let pools =
                  set_up_pools-equipped master (nprocs - num_ocore_tasks) num_ocore_tasks
                    (ground (arith, enough)) in
                ground (arith, e, read, settings, valid, pools)
          ]
    ]
