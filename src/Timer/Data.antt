-- ===== src/Timer/Data.antt =====
-- What the calls in src/grvy_timer.cpp store in the map of timers.
use grvy.Base.{none, some, List, [], ◌∷◌}
use grvy.Base.Map.{find, insert, modify}
use grvy.Base.Int.{ℤ, pos, negsuc, ◌+ℤ◌, ◌-ℤ◌}
use grvy.Base.Text.{Text, text_key}
use grvy.Timer.Types.{Accumulators, TimerData}

-- The value -1. that a time stamp gets when its timer ends, in microseconds.
abbrev pub no_stamp : ℤ
no_stamp = negsuc 999999

module _ {A : Type 0} (acc : Accumulators A) where
  -- The timer that a first `BeginTimer` makes.
  abbrev pub first_begin : ℤ → TimerData A
  first_begin mytime = record {
    timings_0 = pos 0;
    timings_1 = mytime;
    timings_inc_0 = pos 0;
    timings_inc_1 = mytime;
    accumulated = pos 0;
    stats = acc.empty;
    stats_inc = acc.empty;
  }

  abbrev pub next_begin : ℤ → TimerData A → TimerData A
  next_begin mytime d = record d { timings_1 = mytime; timings_inc_1 = mytime; accumulated = pos 0 }

  -- The end of `BeginTimer`: is this the first call for this id?
  unfoldable pub start_entry : Text → ℤ → List (Text × TimerData A) → List (Text × TimerData A)
  start_entry id mytime m = elim (find id m) [
    | none ↦ insert id (first_begin mytime) m
    | some _ ↦ modify id (next_begin mytime) m
  ]

  -- What `EndTimer` does to the timer.
  abbrev pub end_data : ℤ → TimerData A → TimerData A
  end_data mytime d =
      let increment = (mytime -ℤ d.timings_1) +ℤ d.accumulated in
      let inclusive_increment = mytime -ℤ d.timings_inc_1 in
      record d {
        timings_0 = d.timings_0 +ℤ increment;
        timings_1 = no_stamp;
        stats = acc.add d.stats increment;
        timings_inc_0 = d.timings_inc_0 +ℤ inclusive_increment;
        timings_inc_1 = no_stamp;
        stats_inc = acc.add d.stats_inc inclusive_increment;
      }

  abbrev pub reset_data : TimerData A → TimerData A
  reset_data d = record d {
    timings_0 = pos 0;
    timings_inc_0 = pos 0;
    stats = acc.empty;
    stats_inc = acc.empty;
  }

  unfoldable pub reset_all : List (Text × TimerData A) → List (Text × TimerData A)
  reset_all [] = []
  reset_all ((id, d) ∷ m) = (id, reset_data d) ∷ reset_all m
