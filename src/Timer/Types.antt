-- ===== src/Timer/Types.antt =====
-- The state of the timer class in src/grvy_timer.cpp. Times are whole microseconds, the resolution
-- of gettimeofday; the rounding of doubles is left out.
use grvy.Base.{ℕ, ◌+◌, ◌≡◌, refl, Bool, List, [], ◌∷◌, length, arith}
use grvy.Base.Int.{ℤ}
use grvy.Base.Text.{Text}

-- The enumeration of src/grvy_int.h.
pub data Stat : Type 0 where
  timer_mean timer_variance timer_min timer_max : Stat

-- boost::accumulators, as far as the timers use it: a set of samples that is filled one by one,
-- their number, and the statistics that are only passed on.
pub record Accumulators (A : Type 0) : Type 0 where
  pub empty : A
  pub add : A → ℤ → A
  pub count : A → ℕ
  pub stat : Stat → A → ℤ
  pub count-empty : count empty ≡ 0
  pub count-add : (a : A) (x : ℤ) → count (add a x) ≡ count a + 1

-- `GRVY_Timer_Data`: `timings` and `timings_inc` have two entries each.
pub record TimerData (A : Type 0) : Type 0 where
  pub timings_0 : ℤ
  pub timings_1 : ℤ
  pub timings_inc_0 : ℤ
  pub timings_inc_1 : ℤ
  pub accumulated : ℤ
  pub stats : A
  pub stats_inc : A

-- The members of GRVY_Timer_ClassImp that the timers use, and the number of clock readings so far.
-- The top of the callgraph is the head of the list.
pub record Timer (A : Type 0) : Type 0 where
  pub initialized : Bool
  pub finalized : Bool
  pub timer_finalize : ℤ
  pub timer_name : Text
  pub num_begins : ℤ
  pub callgraph : List Text
  pub timer_map : List (Text × TimerData A)
  pub max_stdout_width : ℕ
  pub readings : ℕ

-- Samples kept as a list are such accumulators.
abbrev pub sample_lists : (Stat → List ℤ → ℤ) → Accumulators (List ℤ)
sample_lists f = record {
  empty = [];
  add = λ l x. x ∷ l;
  count = length;
  stat = f;
  count-empty = refl;
  count-add = λ l x. omega arith;
}
