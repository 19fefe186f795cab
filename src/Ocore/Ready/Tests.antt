-- ===== src/Ocore/Ready/Tests.antt =====
-- A job of src/grvy_ramdisk.cpp with two worker tasks and two Ocore tasks, whose input file enables Ocore and
-- disables the overflow. The file is its text, and doubles are thousandths.
use grvy.Base.{
  ℕ, ◌-◌, ◌≤◌, ◌<◌, Bool, true, false, Option, none, some, length, leb, ltb, ◌==◌, ◌&&◌, ◌≡◌, refl,
  if◌then◌else◌, ok, fail, assert_failed, aborted, guard, ◌>>◌, arith,
}
use grvy.Base.Int.{ℤ, pos, beq_ℤ}
use grvy.Base.Text.{Text, bytes, text_beq}
use grvy.Input.Types.{GetPotCall}
use grvy.Input.Calls.{has_dos_newline}
use grvy.Ocore.Settings.{
  Settings, default_settings, key, Reader, check_settings, receive, max_records, config_of,
}
use grvy.Ocore.Job.{split_tasks, Machine, set_up_pool, set_up_pools, constructed, initialize}
use grvy.Ocore.Options.{int_option, settings_in}
use grvy.Ocore.Ready.{is_valid, equipped, view_of, ready_tasks, disabled_tasks, initialize-outcome}
use grvy.Ocore.Ready.Sane.{initialize-SysInv, overflow_setting_ignored}
use grvy.Ocore.System.Init.{init_system}
use grvy.Ocore.System.Rounds.{SysInv, view}

abbrev int_entry : Text → Option ℤ
int_entry var =
    if text_beq var (key (bytes "enable_ocore"))
    then some (pos 1)
    else if text_beq var (key (bytes "use_disk_overflow"))
    then some (pos 0)
    else none

abbrev or_def : {T : Type 0} → Option T → T → T
or_def none def = def
or_def (some x) def = x

abbrev calls_of : {T : Type 0} → (Text → Option T) → GetPotCall Text T
calls_of entry = record {
  call = λ g var def. elim (entry var) [ none ↦ def | some x ↦ x ];
  call_at = λ g var def i. elim (entry var) [ none ↦ def | some x ↦ x ];
  entry = λ g var. entry var;
  entry_at = λ g var i. entry var;
  call-entry = λ g var def. refl;
  call_at-entry = λ g var def i. refl;
}

abbrev reader : Reader Text ℤ ℕ
reader = record {
  getpot = record { parse = λ t. t; size = length; print = λ g prefix. g };
  ints = calls_of int_entry;
  texts = calls_of (λ var. none);
  bools = calls_of (λ var. none);
  doubles = calls_of (λ var. none);
  double_eq = λ a b. a == b;
  double_def = 99999990;
  is_ratio = λ d. ltb 0 d && ltb d 1000;
  stale = pos 0;
}

abbrev file : Option Text
file = some (bytes "overflow off")

abbrev never : ℕ → Bool
never rank = false

abbrev machines : ℕ → Machine
machines rank = record { has_scratch = true; has_memory = true }

abbrev master : Settings ℕ
master = settings_in reader (bytes "overflow off") (constructed reader machines 100 never 0)

initialize-outcome_example : initialize reader machines 100 never file 2 4 ≡ (
    guard (leb 1 2) aborted
    >> (guard (leb 3 4) aborted >> elim (view_of reader file) [
      | none ↦ ok (1, disabled_tasks reader machines 100 never (4 - 2))
      | some g ↦
          let master = settings_in reader g (constructed reader machines 100 never 0) in
          if beq_ℤ (int_option reader g (bytes "enable_ocore") (pos 0)) (pos 1)
          then if is_valid reader machines 100 never master
            then if equipped reader machines 100 never (4 - 2) 2
              then ok (0, ready_tasks reader machines 100 never (4 - 2) master)
              else fail aborted
            else fail assert_failed
          else ok (1, disabled_tasks reader machines 100 never (4 - 2))
    ]))
initialize-outcome_example = initialize-outcome reader machines 100 never file 2 4 refl

set_up :
    initialize reader machines 100 never file 2 4
    ≡ ok (0, ready_tasks reader machines 100 never 2 master)
unfolding text_beq default_settings check_settings has_dos_newline set_up_pools set_up_pool receive
set_up = initialize-outcome reader machines 100 never file 2 4 refl

is_fraction : (d : ℕ) → reader.is_ratio d ≡ true → (0 < d) × (d < 1000)
is_fraction d h = ground (arith, h)

initialize-SysInv_example :
    (let tasks = ready_tasks reader machines 100 never 2 master in
      let cfg = config_of (λ d. d) (λ d. 1000) (tasks 2).settings in
      ((rank : ℕ)
        → 2 ≤ rank
        → ((tasks rank).is_ocore_task ≡ true)
          × (config_of (λ d. d) (λ d. 1000) (tasks rank).settings ≡ cfg)
          × (cfg.use_disk_overflow ≡ true))
      × ((rank : ℕ)
          → rank < 2
          → let s = init_system cfg (tasks rank).settings.allow_empty_records rank 2 2 in
            ((tasks rank).is_work_task ≡ true) × SysInv s × ((o : ℕ) → view s o ≡ none)))
unfolding config_of max_records split_tasks receive default_settings text_beq
initialize-SysInv_example =
    initialize-SysInv reader machines 100 never file 2 4
      (ready_tasks reader machines 100 never 2 master) (λ d. d) (λ d. 1000) refl is_fraction set_up
      (omega arith)

overflow_setting_ignored_example :
    (let tasks = ready_tasks reader machines 100 never 2 master in
      ((tasks 0).settings.use_disk_overflow ≡ false)
      × ((rank : ℕ) → 2 ≤ rank → (tasks rank).settings.use_disk_overflow ≡ true))
unfolding text_beq has_dos_newline
overflow_setting_ignored_example =
    overflow_setting_ignored reader machines 100 never file (bytes "overflow off") 2 4
      (ready_tasks reader machines 100 never 2 master) refl refl refl set_up
