-- ===== src/Timer/Calls.antt =====
-- The operations on timers in src/grvy_timer.cpp. The clock is the sequence of the values that
-- gettimeofday returns, one for each call of `RawTimer`. Messages to the log are left out.
use grvy.Base.{
  ℕ, suc, ◌+◌, ◌-◌, ◌^◌, Bool, true, false, none, some, List, [], ◌∷◌, length, ltb, leb,
  if◌then◌else◌, Result, ok, fail, bad_access, ◌>>=◌,
}
use grvy.Base.Map.{find, modify}
use grvy.Base.Int.{ℤ, pos, negsuc, ◌+ℤ◌, ◌-ℤ◌, ltb_ℤ}
use grvy.Base.Text.{Text, bytes, text_beq, text_key}
use grvy.Timer.Data.{no_stamp, start_entry, end_data, reset_all}
use grvy.Timer.Types.{Accumulators, Timer}

-- `_GRVY_gtimer` of src/grvy_int.h.
unfoldable pub gtimer : Text
gtimer = bytes "GRVY_Unassigned"

-- `num_begins > callgraph.size()`: the int is converted to size_t, so a negative one is greater.
unfoldable pub exceeds_size : ℤ → ℕ → Bool
exceeds_size (pos n) size = ltb size n
exceeds_size (negsuc n) size = ltb size (2 ^ 64 - suc n)

-- `callgraph.top()`.
abbrev pub top : List Text → Result Text
top [] = fail bad_access
top (id ∷ rest) = ok id

-- `index->first[1] < 0`: the second byte of the key, as a signed char. The terminating 0 of a key
-- of one byte may be read; a key with no byte has no second one.
unfoldable pub second_char_negative : Text → Result Bool
second_char_negative [] = fail bad_access
second_char_negative (a ∷ []) = ok false
second_char_negative (a ∷ b ∷ t) = ok (leb 128 b)

module _ {A : Type 0} (acc : Accumulators A) (clock : ℕ → ℤ) where
  -- `RawTimer`: the value, and the state with one reading more.
  abbrev pub now : Timer A → ℤ
  now s = clock s.readings

  abbrev pub tick : Timer A → Timer A
  tick s = record s { readings = s.readings + 1 }

  unfoldable pub pause_timer : Text → Timer A → Result (Timer A)
  pause_timer id s = elim (find id s.timer_map) [
    | none ↦ fail bad_access
    | some _ ↦ ok (record (tick s) {
      timer_map =
          modify id (λ d. record d { accumulated = d.accumulated +ℤ (now s -ℤ d.timings_1) })
            s.timer_map;
    })
  ]

  unfoldable pub resume_timer : Text → Timer A → Result (Timer A)
  resume_timer id s = elim (find id s.timer_map) [
    | none ↦ fail bad_access
    | some _ ↦ ok (record (tick s) {
      timer_map = modify id (λ d. record d { timings_1 = now s }) s.timer_map;
    })
  ]

  unfoldable pub begin_timer : Text → Timer A → Result (Timer A)
  begin_timer id s = do
    let counted = record (tick s) { num_begins = s.num_begins +ℤ pos 1 }
    paused ←
        (if ltb_ℤ (pos 2) counted.num_begins
          then (top counted.callgraph >>= (λ outer. pause_timer outer counted))
          else ok counted)
    ok (record paused {
      callgraph =
          if exceeds_size paused.num_begins (length paused.callgraph)
          then id ∷ paused.callgraph
          else paused.callgraph;
      timer_map = start_entry acc id (now s) paused.timer_map;
    })

  -- `callgraph.pop()`, guarded by its size.
  abbrev pub pop_callgraph : List Text → List Text
  pop_callgraph [] = []
  pop_callgraph (id ∷ rest) = rest

  -- The last branch of `EndTimer`.
  unfoldable pub end_found : Text → ℤ → Timer A → Result (Timer A)
  end_found id mytime s = do
    let popped = record s {
      timer_map = modify id (end_data acc mytime) s.timer_map;
      callgraph = pop_callgraph s.callgraph;
    }
    resumed ←
        (if ltb_ℤ (pos 2) popped.num_begins
          then (top popped.callgraph >>= (λ outer. resume_timer outer popped))
          else ok popped)
    ok (record resumed { num_begins = resumed.num_begins -ℤ pos 1 })

  -- The branches of `EndTimer`.
  unfoldable pub end_branches : Text → ℤ → Timer A → Result (Timer A)
  end_branches id mytime s = elim (find id s.timer_map) [
    | none ↦ ok s
    | some _ ↦
        second_char_negative id >>= λ negative. if negative then ok s else end_found id mytime s
  ]

  -- The global timer region keeps a snapshot of the clock.
  abbrev pub snapshot : Text → Timer A → Timer A
  snapshot id s = if text_beq id gtimer then record (tick s) { timer_finalize = now s } else s

  unfoldable pub end_timer : Text → Timer A → Result (Timer A)
  end_timer id s = do ended ← end_branches id (now s) (tick s); ok (snapshot id ended)

  -- `Reset`. The callgraph stays.
  unfoldable pub reset : Timer A → Result (Timer A)
  reset s =
      begin_timer gtimer (record s { num_begins = pos 0; timer_map = reset_all acc s.timer_map })

  unfoldable pub init : Text → Timer A → Result (Timer A)
  init name s = reset (record s { initialized = true; timer_name = name })

  unfoldable pub finalize : Timer A → Result (Timer A)
  finalize s = do ended ← end_timer gtimer s; ok (record ended { finalized = true })

  -- The constructor.
  unfoldable pub construct : Result (Timer A)
  construct = do
    begun ← begin_timer gtimer (record {
      initialized = false;
      finalized = false;
      timer_finalize = no_stamp;
      timer_name = [];
      num_begins = pos 0;
      callgraph = [];
      timer_map = [];
      max_stdout_width = 120;
      readings = 0;
    })
    ok (record begun { timer_name = bytes "Performance Timings:" })
