-- ===== src/Timer/Summary/Tests.antt =====
-- Reports of src/grvy_timer.cpp on two timers, and names that are longer than the column.
use grvy.Base.{ℕ, ◌+◌, true, none, none, List, [], ◌∷◌, ◌≡◌, ◌≤◌, ◌<◌, refl, ok, length, arith}
use grvy.Base.Map.{find}
use grvy.Base.Int.{int_key, ℤ, pos, ◌+ℤ◌}
use grvy.Base.Text.{Text, bytes, text_beq, text_key}
use grvy.Timer.Types.{Accumulators, TimerData, Timer, sample_lists}
use grvy.Timer.Data.{first_begin}
use grvy.Timer.Calls.{gtimer}
use grvy.Timer.Summary.{display_width, id_width, shown_name, Report, summarize}
use grvy.Timer.Summary.Order.{Descending, sum_rows, last_with, times_of, Distinct}
use grvy.Timer.Summary.Kept.{summarize_lem}
use grvy.Timer.Summary.Width.{summary_fits}

abbrev samples : Accumulators (List ℤ)
samples = sample_lists (λ s l. pos 0)

abbrev tick_clock : ℕ → ℤ
tick_clock k = pos k

abbrev timed : ℕ → TimerData (List ℤ)
timed n = record (first_begin samples (pos 1)) { timings_0 = pos n }

abbrev finished : ℕ → ℕ → Timer (List ℤ)
finished a b = record {
  initialized = true;
  finalized = true;
  timer_finalize = pos 50;
  timer_name = bytes "run";
  num_begins = pos 0;
  callgraph = [];
  timer_map = (gtimer, timed 40) ∷ (bytes "norm", timed a) ∷ (bytes "solve", timed b) ∷ [];
  max_stdout_width = 120;
  readings = 9;
}

summarize_lem_example :
    (r : Report) × (s' : Timer (List ℤ)) × (summarize samples tick_clock (finished 5 7)
      ≡ ok (r, s'))
    × Descending r.rows
    × ((t : ℤ) → find t r.rows ≡ last_with t (finished 5 7).timer_map none)
    × (Distinct (times_of (finished 5 7).timer_map) → sum_rows r.rows +ℤ r.rest ≡ r.total)
    × (r.total ≡ pos 40)
    × ((j : Text) → find j s'.timer_map ≡ find j (finished 5 7).timer_map)
unfolding find text_beq gtimer
summarize_lem_example = summarize_lem samples tick_clock (finished 5 7) (timed 40) refl refl

summary_fits_example :
    let width = display_width (bytes "run") 120 (id_width 120 (finished 5 7).timer_map 20) in
    (20 ≤ width)
    × (width + 75 ≤ 120)
    × ((t : Text) × (shown_name width (bytes "solve") ≡ ok t) × (length t < width))
summary_fits_example =
    summary_fits (finished 5 7).timer_map (bytes "run") (bytes "solve") 120 (omega arith)
      (omega arith)
