-- ===== src/Interface/Timers.antt =====
-- The C functions of src/grvy_timer_interface.cpp. They share one timer object, which is none until
-- the first call; its constructor begins the global timer.
pub mod Programs
pub mod Keys
pub mod Saved
use grvy.Base.{if◌then◌else◌, ℕ, Bool, true, false, Option, none, some, Result, ok, ◌>>=◌}
use grvy.Base.Int.{ℤ}
use grvy.Base.Text.{Text}
use grvy.Timer.Types.{Accumulators, Stat, timer_mean, timer_variance, timer_min, timer_max, Timer}
use grvy.Timer.Calls.{now, tick, begin_timer, end_timer, reset, init, finalize, construct}
use grvy.Timer.Queries.{
  stats_count, stats_exclusive, stats_inclusive, elapsed_seconds, elapsed_global,
  set_summarize_width,
}
use grvy.Timer.Summary.{Report, summarize}

module _ {A : Type 0} (acc : Accumulators A) (clock : ℕ → ℤ) where
  -- `verify_C_timer_allocated`.
  unfoldable pub verify_timer_allocated : Option (Timer A) → Result (Timer A)
  verify_timer_allocated none = construct acc clock
  verify_timer_allocated (some s) = ok s

  -- `grvy_timer`.
  unfoldable pub timer_raw : Option (Timer A) → Result (ℤ × Option (Timer A))
  unfolding verify_timer_allocated
  timer_raw p = do s ← verify_timer_allocated p; ok (now acc clock s, some (tick acc clock s))

  unfoldable pub timer_begin : Text → Option (Timer A) → Result (Option (Timer A))
  unfolding verify_timer_allocated
  timer_begin id p = do s ← verify_timer_allocated p; s' ← begin_timer acc clock id s; ok (some s')

  unfoldable pub timer_end : Text → Option (Timer A) → Result (Option (Timer A))
  unfolding verify_timer_allocated
  timer_end id p = do s ← verify_timer_allocated p; s' ← end_timer acc clock id s; ok (some s')

  unfoldable pub timer_init : Text → Option (Timer A) → Result (Option (Timer A))
  unfolding verify_timer_allocated
  timer_init id p = do s ← verify_timer_allocated p; s' ← init acc clock id s; ok (some s')

  unfoldable pub timer_reset : Option (Timer A) → Result (Option (Timer A))
  unfolding verify_timer_allocated
  timer_reset p = do s ← verify_timer_allocated p; s' ← reset acc clock s; ok (some s')

  unfoldable pub timer_finalize : Option (Timer A) → Result (Option (Timer A))
  unfolding verify_timer_allocated
  timer_finalize p = do s ← verify_timer_allocated p; s' ← finalize acc clock s; ok (some s')

  unfoldable pub timer_summarize : Option (Timer A) → Result (Report × Option (Timer A))
  unfolding verify_timer_allocated
  timer_summarize p = do
    s ← verify_timer_allocated p
    (report, s') ← summarize acc clock s
    ok (report, some s')

  unfoldable pub timer_set_summarize_width : ℤ → Option (Timer A) → Result (ℕ × Option (Timer A))
  unfolding verify_timer_allocated
  timer_set_summarize_width maxwidth p = do
    s ← verify_timer_allocated p
    let (code, s') = set_summarize_width acc clock maxwidth s
    ok (code, some s')

  unfoldable pub timer_elapsed_global : Option (Timer A) → Result (ℤ × Option (Timer A))
  unfolding verify_timer_allocated
  timer_elapsed_global p = do
    s ← verify_timer_allocated p
    let (elapsed, s') = elapsed_global acc clock s
    ok (elapsed, some s')

  unfoldable pub timer_elapsedseconds : Text → Option (Timer A) → Result (ℤ × Option (Timer A))
  unfolding verify_timer_allocated
  timer_elapsedseconds id p = do
    s ← verify_timer_allocated p
    ok (elapsed_seconds acc clock id true s, some s)

  unfoldable pub timer_elapsedseconds_inc : Text → Option (Timer A) → Result (ℤ × Option (Timer A))
  unfolding verify_timer_allocated
  timer_elapsedseconds_inc id p = do
    s ← verify_timer_allocated p
    ok (elapsed_seconds acc clock id false s, some s)

  unfoldable pub timer_stats_count : Text → Option (Timer A) → Result (ℕ × Option (Timer A))
  unfolding verify_timer_allocated
  timer_stats_count id p = do s ← verify_timer_allocated p; ok (stats_count acc clock id s, some s)

  -- `grvy_timer_stats_mean`, `_variance`, `_min` and `_max`, and those of inclusive times.
  unfoldable pub timer_stats : Bool → Stat → Text → Option (Timer A) → Result (ℤ × Option (Timer A))
  unfolding verify_timer_allocated
  timer_stats inclusive stat id p = do
    s ← verify_timer_allocated p
    ok (
      if inclusive
          then stats_inclusive acc clock id stat s
          else stats_exclusive acc clock id stat s,
      some s,
    )
