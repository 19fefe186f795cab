-- ===== src/Timer/Tests.antt =====
-- Runs of the timers of src/grvy_timer.cpp with a clock that ticks once a microsecond.
use grvy.Base.{ℕ, ◌+◌, true, false, List, [], ◌∷◌, ◌≡◌, ◌≢◌, refl, ok, ◌>>=◌, arith}
use grvy.Base.Map.{find}
use grvy.Base.Int.{ℤ, pos, ◌-ℤ◌}
use grvy.Base.Text.{Text, bytes, text_beq, text_key}
use grvy.Timer.Types.{Accumulators, TimerData, Timer, sample_lists}
use grvy.Timer.Data.{first_begin}
use grvy.Timer.Calls.{gtimer, init, construct, finalize, second_char_negative}
use grvy.Timer.Queries.{elapsed_seconds}
use grvy.Timer.Regions.{Regions, leave, enter, IsPlain, run, stops}
use grvy.Timer.Times.{Timed, nested_times}
use grvy.Timer.Session.{session}

abbrev samples : Accumulators (List ℤ)
samples = sample_lists (λ s l. pos 0)

abbrev tick_clock : ℕ → ℤ
tick_clock k = pos (10 + k)

abbrev solve : Text
solve = bytes "solve"

abbrev norm : Text
norm = bytes "norm"

abbrev sum : Text
sum = bytes "sum"

abbrev timer_of : ℕ → List Text → List (Text × TimerData (List ℤ)) → Timer (List ℤ)
timer_of n ids m = record {
  initialized = true;
  finalized = false;
  timer_finalize = pos 5;
  timer_name = bytes "run";
  num_begins = pos n;
  callgraph = ids;
  timer_map = m;
  max_stdout_width = 120;
  readings = 3;
}

abbrev in_solve : Timer (List ℤ)
in_solve =
    timer_of 2 (solve ∷ gtimer ∷ [])
      ((gtimer, first_begin samples (pos 10)) ∷ (solve, first_begin samples (pos 11)) ∷ [])

norm-IsPlain : IsPlain norm
unfolding text_beq gtimer second_char_negative
norm-IsPlain = (refl, refl)

sum-IsPlain : IsPlain sum
unfolding text_beq gtimer second_char_negative
sum-IsPlain = (refl, refl)

norm-sum-ne : norm ≢ sum
norm-sum-ne = ground arith

solve-norm-ne : solve ≢ norm
solve-norm-ne = ground arith

solve-sum-ne : solve ≢ sum
solve-sum-ne = ground arith

abbrev norm_region : Regions
norm_region = enter norm (enter sum leave leave) leave

nested_times_example :
    (s' : Timer (List ℤ)) × (run samples tick_clock norm_region in_solve ≡ ok s')
    × Timed samples tick_clock norm in_solve s'
        ((tick_clock 9 -ℤ tick_clock 3) -ℤ stops tick_clock (enter sum leave leave) 5)
        (tick_clock 9 -ℤ tick_clock 3)
unfolding find text_beq gtimer
nested_times_example =
    nested_times samples tick_clock norm solve (enter sum leave leave) in_solve 2 (gtimer ∷ [])
      (first_begin samples (pos 11)) refl refl (omega arith) refl refl
      (solve-norm-ne, (solve-sum-ne, tt, tt), tt)
      (norm-IsPlain, (norm-sum-ne, tt, tt), (sum-IsPlain, tt, tt, tt), tt)

session_example :
    (s : Timer (List ℤ)) × (((construct samples tick_clock
          >>= (λ built. init samples tick_clock (bytes "run") built))
        >>= (λ up.
            run samples tick_clock norm_region up >>= (λ done. finalize samples tick_clock done)))
      ≡ ok s)
    × (s.num_begins ≡ pos 0)
    × (s.callgraph ≡ [])
    × (s.timer_finalize ≡ tick_clock 9)
    × (elapsed_seconds samples tick_clock gtimer true s ≡ tick_clock 8 -ℤ tick_clock 1)
session_example =
    session samples tick_clock (bytes "run") norm_region
      (norm-IsPlain, (norm-sum-ne, tt, tt), (sum-IsPlain, tt, tt, tt), tt)
