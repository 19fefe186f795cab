-- ===== src/Timer/Queries.antt =====
-- What can be asked of the timers in src/grvy_timer.cpp.
use grvy.Base.{ℕ, Bool, none, some, leb, if◌then◌else◌}
use grvy.Base.Map.{find}
use grvy.Base.Int.{ℤ, pos, negsuc, ◌+ℤ◌, ◌-ℤ◌, ltb_ℤ}
use grvy.Base.Text.{Text, text_key}
use grvy.Timer.Types.{Accumulators, Stat, Timer}
use grvy.Timer.Data.{no_stamp}
use grvy.Timer.Calls.{gtimer, now, tick}

module _ {A : Type 0} (acc : Accumulators A) (clock : ℕ → ℤ) where
  -- `StatsCount`.
  unfoldable pub stats_count : Text → Timer A → ℕ
  stats_count id s = elim (find id s.timer_map) [ none ↦ 0 | some d ↦ acc.count d.stats ]

  -- `Stats_Exclusive` and `Stats_Inclusive`; -1 stands for no data. Their callers pass no other number
  -- than the four of the enumeration.
  unfoldable pub stats_exclusive : Text → Stat → Timer A → ℤ
  stats_exclusive id stat s = elim (find id s.timer_map) [
    | none ↦ no_stamp
    | some d ↦ acc.stat stat d.stats
  ]

  unfoldable pub stats_inclusive : Text → Stat → Timer A → ℤ
  stats_inclusive id stat s = elim (find id s.timer_map) [
    | none ↦ no_stamp
    | some d ↦ acc.stat stat d.stats_inc
  ]

  -- `ElapsedSeconds`: 0 for an unknown timer and for one that is still active.
  unfoldable pub elapsed_seconds : Text → Bool → Timer A → ℤ
  elapsed_seconds id exclusive s = elim (find id s.timer_map) [
    | none ↦ pos 0
    | some d ↦
        if ltb_ℤ (pos 0) d.timings_1
        then pos 0
        else if exclusive
        then d.timings_0
        else d.timings_inc_0
  ]

  -- The branches of `ElapsedGlobal`.
  unfoldable pub global_region : ℤ → Timer A → ℤ
  global_region mytime s = elim (find gtimer s.timer_map) [
    | none ↦ pos 0
    | some d ↦ if ltb_ℤ (pos 0) d.timings_1 then mytime -ℤ d.timings_1 else d.timings_0
  ]

  -- `ElapsedGlobal`: the value, and the state after its reading of the clock.
  unfoldable pub elapsed_global : Timer A → ℤ × Timer A
  elapsed_global s =
      let mytime = now acc clock s in
      let elapsed = global_region mytime s in
      (
        if ltb_ℤ (pos 0) s.timer_finalize then elapsed +ℤ (mytime -ℤ s.timer_finalize) else elapsed,
        tick acc clock s,
      )

  -- `SetSummarizeWidth`: the return code, and the state after it.
  unfoldable pub set_summarize_width : ℤ → Timer A → ℕ × Timer A
  set_summarize_width (negsuc n) s = (1, s)
  set_summarize_width (pos n) s =
      if leb n 120 then (1, s) else (0, record s { max_stdout_width = n })
