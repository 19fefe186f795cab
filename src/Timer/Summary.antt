-- ===== src/Timer/Summary.antt =====
-- Summarize of src/grvy_timer.cpp: what it lists, in which order, and what it does to the timers.
pub mod Order
pub mod Kept
pub mod Width
mod Tests
-- Percentages are left as the times that they are made of.
use grvy.Base.{
  ℕ, zero, suc, ◌+◌, ◌-◌, ◌%◌, ◌^◌, Bool, true, false, Option, none, some, List, [], ◌∷◌, ◌++◌,
  length, ltb, leb, ◌&&◌, if◌then◌else◌, Result, ok, fail, bad_access, ◌>>=◌,
}
use grvy.Base.Map.{find, modify}
use grvy.Base.Int.{ℤ, pos, negsuc, ◌+ℤ◌, ◌-ℤ◌, ltb_ℤ}
use grvy.Base.Text.{Text, bytes, text_beq, text_key}
use grvy.Timer.Types.{Accumulators, timer_min, TimerData, Timer}
use grvy.Timer.Calls.{gtimer, finalize}

-- `_GRVY_TimerMapSortHL[timings] = name`: TimerCmpHighLow compares the first entries only, so equal
-- times are one key, whose name is replaced.
unfoldable pub insert_row : ℤ → Text → List (ℤ × Text) → List (ℤ × Text)
insert_row t name [] = (t, name) ∷ []
insert_row t name ((u, other) ∷ rows) =
    let later = insert_row t name rows in
    if ltb_ℤ u t
    then (t, name) ∷ (u, other) ∷ rows
    else if ltb_ℤ t u
    then (u, other) ∷ later
    else (u, name) ∷ rows

-- The size_t difference w - n.
abbrev pub size_sub : ℕ → ℕ → ℕ
size_sub w n = (w + (2 ^ 64 - n)) % 2 ^ 64

abbrev pub max : ℕ → ℕ → ℕ
max a b = if ltb a b then b else a

abbrev pub min : ℕ → ℕ → ℕ
min a b = if ltb b a then b else a

-- The width once the name of the whole has been considered. The sizes are taken to fit an int.
unfoldable pub display_width : Text → ℕ → ℕ → ℕ
display_width name stdout_width width =
    if ltb (width + 35) (length name + 23)
    then size_sub (min (size_sub stdout_width 40) (length name + 23)) 35
    else width

module _ {A : Type 0} where
  -- The loop that sorts all timers but the global one.
  unfoldable pub sort_timers : List (Text × TimerData A) → List (ℤ × Text) → List (ℤ × Text)
  sort_timers [] rows = rows
  sort_timers ((id, d) ∷ m) rows =
      if text_beq id gtimer
      then sort_timers m rows
      else sort_timers m (insert_row d.timings_0 id rows)

  -- `subtime`: the sum over the same timers.
  unfoldable pub sub_time : List (Text × TimerData A) → ℤ
  sub_time [] = pos 0
  sub_time ((id, d) ∷ m) = if text_beq id gtimer then sub_time m else d.timings_0 +ℤ sub_time m

  -- The width of the column of names, over the same timers.
  unfoldable pub id_width : ℕ → List (Text × TimerData A) → ℕ → ℕ
  id_width stdout_width [] width = width
  id_width stdout_width ((id, d) ∷ m) width =
      if text_beq id gtimer
      then id_width stdout_width m width
      else id_width stdout_width m
          (min (max width (length id + 1)) (size_sub (size_sub stdout_width 35) 40))

abbrev pub take : ℕ → Text → Text
take n [] = []
take n (c ∷ t) = elim n [ zero ↦ [] | suc k ↦ c ∷ take k t ]

-- `AddEllipsis`: the last three characters become dots.
unfoldable pub add_ellipsis : Text → Result Text
add_ellipsis name =
    if ltb (length name) 3 then fail bad_access else ok (take (length name - 3) name ++ bytes "...")

-- The name in a row: cut to the column, with dots if it is longer than the header's column, which
-- is 14 characters wider.
unfoldable pub shown_name : ℕ → Text → Result Text
shown_name width name =
    let cut = take (width - 1) name in
    if ltb (width + 13) (length name) then add_ellipsis cut else ok cut

-- What is printed: a row for each name, the rest of the global timer, the total, and the timers
-- whose shortest sample is below the resolution.
pub record Report : Type 0 where
  pub rows : List (ℤ × Text)
  pub rest : ℤ
  pub total : ℤ
  pub inaccurate : List Text

module _ {A : Type 0} (acc : Accumulators A) (clock : ℕ → ℤ) where
  -- The timers with a sample below `_GRVY_TIMER_THRESH`, which is less than a microsecond.
  unfoldable pub small_times : List (Text × TimerData A) → List Text
  small_times [] = []
  small_times ((id, d) ∷ m) =
      if ltb 0 (acc.count d.stats) && ltb_ℤ (acc.stat timer_min d.stats) (pos 1)
      then id ∷ small_times m
      else small_times m

  -- The part after the finalization: the global timer has the rest while the rows are printed, and
  -- gets the sum back.
  unfoldable pub report : Timer A → Result (Report × Timer A)
  report s = elim (find gtimer s.timer_map) [
    | none ↦ fail bad_access
    | some d ↦
        let subtime = sub_time s.timer_map in
        let during =
          modify gtimer (λ e. record e { timings_0 = d.timings_0 -ℤ subtime }) s.timer_map in
        let after = modify gtimer (λ e. record e { timings_0 = e.timings_0 +ℤ subtime }) during in
        ok (
          record {
            rows = sort_timers during [];
            rest = d.timings_0 -ℤ subtime;
            total = d.timings_0;
            inaccurate = small_times after;
          },
          record s { timer_map = after },
        )
  ]

  -- `Summarize`.
  unfoldable pub summarize : Timer A → Result (Report × Timer A)
  summarize s = (if s.finalized then ok s else finalize acc clock s) >>= (λ done. report done)
