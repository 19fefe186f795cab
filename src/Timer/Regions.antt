-- ===== src/Timer/Regions.antt =====
-- Programs that time nested regions with src/grvy_timer.cpp, and the times that they should get.
use grvy.Base.{ℕ, ◌+◌, false, ◌≡◌, ◌≢◌, Result, ok, ◌>>=◌}
use grvy.Base.Int.{ℤ, pos, ◌+ℤ◌, ◌-ℤ◌}
use grvy.Base.Text.{Text, text_beq}
use grvy.Timer.Types.{Accumulators, Timer}
use grvy.Timer.Calls.{gtimer, second_char_negative, begin_timer, end_timer}

-- `enter id inner rest`: the region id with the regions inside it, then the regions after it.
pub data Regions : Type 0 where
  leave : Regions
  enter : Text → Regions → Regions → Regions

-- How often the clock is read: at the begin, the pause of the outer timer, the end, and its
-- resumption.
abbrev pub num_readings : Regions → ℕ
num_readings leave = 0
num_readings (enter id inner rest) = 4 + num_readings inner + num_readings rest

-- The name is in none of the regions.
abbrev pub Foreign : Text → Regions → Type 0
Foreign j leave = Unit
Foreign j (enter id inner rest) = (j ≢ id) × Foreign j inner × Foreign j rest

-- A name whose second byte is ASCII and that is not the global timer's.
abbrev pub IsPlain : Text → Type 0
IsPlain id = (text_beq id gtimer ≡ false) × (second_char_negative id ≡ ok false)

-- No region is within one of the same name, and the names are plain.
abbrev pub Proper : Regions → Type 0
Proper leave = Unit
Proper (enter id inner rest) = IsPlain id × Foreign id inner × Proper inner × Proper rest

module _ {A : Type 0} (acc : Accumulators A) (clock : ℕ → ℤ) where
  abbrev pub run : Regions → Timer A → Result (Timer A)
  run leave s = ok s
  run (enter id inner rest) s = do
    begun ← begin_timer acc clock id s
    left ← run inner begun
    ended ← end_timer acc clock id left
    run rest ended

module _ (clock : ℕ → ℤ) where
  -- The time for which the timer around the regions stands still, from each pause to the
  -- resumption, if they start at the k-th reading of the clock.
  abbrev pub stops : Regions → ℕ → ℤ
  stops leave k = pos 0
  stops (enter id inner rest) k =
      (clock (k + 3 + num_readings inner) -ℤ clock (k + 1))
      +ℤ stops rest (k + (4 + num_readings inner))
