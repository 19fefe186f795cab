-- ===== src/Timer/Misuse.antt =====
-- Calls of src/grvy_timer.cpp that do not pair up: an end without a begin, and a second start.
use grvy.Base.{
  ℕ, ◌+◌, true, Option, none, some, List, [], ◌∷◌, length, ◌≡◌, refl, ap, sym, ◌∙◌, if◌then◌else◌,
  ok, ◌>>=◌, arith,
}
use grvy.Base.Map.{find, modify}
use grvy.Base.Map.Laws.{find-modify}
use grvy.Base.Int.{ℤ, pos, ◌+ℤ◌, ◌-ℤ◌, ltb_ℤ}
use grvy.Base.Text.{Text, text_key, text_beq_iff}
use grvy.Timer.Types.{Accumulators, TimerData, Timer}
use grvy.Timer.Data.{no_stamp, start_entry, end_data, reset_all}
use grvy.Timer.Calls.{
  begin_timer, end_timer, gtimer, reset, init, end_branches, end_found, exceeds_size,
}
use grvy.Timer.Queries.{elapsed_seconds, elapsed_global, global_region}
use grvy.Timer.Regions.{IsPlain}
use grvy.Timer.Steps.{at, at_self, started, find-start_entry}

module _ {A : Type 0} (acc : Accumulators A) (clock : ℕ → ℤ) where
  single_end :
      (id g : Text) (s : Timer A) (m : List (Text × TimerData A)) (k : ℕ) (e : TimerData A)
      → find id m ≡ some e
      → IsPlain id
      → end_timer acc clock id (at s 1 (g ∷ []) m k)
        ≡ ok (at s 0 [] (modify id (end_data acc (clock k)) m) (k + 1))
  unfolding end_timer end_branches end_found ◌-ℤ◌
  single_end id g s m k e he hp = ground (arith, he)

  -- A second EndTimer, for a timer that has ended and with only the global timer on the stack, is
  -- not rejected: it adds the clock's value plus one second to the exclusive time, takes the
  -- global timer off the stack, and leaves no begin counted.
  pub second_end :
      (id g : Text) (s : Timer A) (d : TimerData A)
      → s.num_begins ≡ pos 1
      → s.callgraph ≡ g ∷ []
      → find id s.timer_map ≡ some d
      → d.timings_1 ≡ no_stamp
      → IsPlain id
      → (s' : Timer A) × (end_timer acc clock id s ≡ ok s')
        × (elapsed_seconds acc clock id true s'
            ≡ d.timings_0 +ℤ ((clock s.readings -ℤ no_stamp) +ℤ d.accumulated))
        × (s'.num_begins ≡ pos 0)
        × (s'.callgraph ≡ [])
  unfolding elapsed_seconds
  second_end id g s d en ec hd ht hp =
      let m = modify id (end_data acc (clock s.readings)) s.timer_map in
      let found : find id m ≡ some (end_data acc (clock s.readings) d) = ground (
        arith,
        hd,
        text_beq_iff id id,
        find-modify id id (end_data acc (clock s.readings)) s.timer_map,
      ) in
      (
        at s 0 [] m (s.readings + 1),
        ap (λ x. end_timer acc clock id x) (sym (at_self s 1 (g ∷ []) en ec))
            ∙ single_end id g s s.timer_map s.readings d hd hp,
        rw (elapsed_seconds, found)
            (ap (λ t. d.timings_0 +ℤ ((clock s.readings -ℤ t) +ℤ d.accumulated)) ht),
        refl,
        refl,
      )

  -- A Reset while a timer is active inside the global one leaves both on the stack, so the next
  -- BeginTimer counts as the second and does not put its own timer there.
  pub reset_stale :
      (id a b : Text) (rest : List Text) (s : Timer A)
      → s.callgraph ≡ a ∷ b ∷ rest
      → (s' : Timer A) × ((reset acc clock s >>= (λ r. begin_timer acc clock id r)) ≡ ok s')
        × (s'.num_begins ≡ pos 2)
        × (s'.callgraph ≡ a ∷ b ∷ rest)
  unfolding reset begin_timer exceeds_size ◌+ℤ◌
  reset_stale id a b rest s ec = (
    at s 2 (a ∷ b ∷ rest)
        (start_entry acc id (clock (s.readings + 1))
          (start_entry acc gtimer (clock s.readings) (reset_all acc s.timer_map)))
        (s.readings + 1 + 1),
    ground (arith, ec),
    refl,
    refl,
  )

  started-timings_1 : (t : ℤ) (o : Option (TimerData A)) → (started acc t o).timings_1 ≡ t
  started-timings_1 t none = refl
  started-timings_1 t (some d) = refl

  global-started :
      (now t : ℤ) (m : List (Text × TimerData A)) (s : Timer A)
      → s.timer_map ≡ start_entry acc gtimer t m
      → ltb_ℤ (pos 0) t ≡ true
      → global_region acc clock now s ≡ now -ℤ t
  unfolding global_region
  global-started now t m s e ht = ground (
    arith,
    e,
    ht,
    text_beq_iff gtimer gtimer,
    find-start_entry acc gtimer gtimer t m,
    started-timings_1 t (find gtimer m),
  )

  -- After an Init that follows a Finalize, at positive clock values, the global time is the time
  -- since the Init plus the time since that Finalize.
  pub init_overcounts :
      (name : Text) (s : Timer A)
      → ltb_ℤ (pos 0) (clock s.readings) ≡ true
      → ltb_ℤ (pos 0) s.timer_finalize ≡ true
      → (s' : Timer A) × (init acc clock name s ≡ ok s')
        × ((elapsed_global acc clock s').0
            ≡ (clock (s.readings + 1) -ℤ clock s.readings)
              +ℤ (clock (s.readings + 1) -ℤ s.timer_finalize))
  unfolding init reset begin_timer ◌+ℤ◌ elapsed_global
  init_overcounts name s hc hf =
      let m = reset_all acc s.timer_map in
      let s' = record s {
        initialized = true;
        timer_name = name;
        num_begins = pos 1;
        callgraph =
            if exceeds_size (pos 1) (length s.callgraph) then gtimer ∷ s.callgraph else s.callgraph;
        timer_map = start_entry acc gtimer (clock s.readings) m;
        readings = s.readings + 1;
      } in
      (
        s',
        refl,
        rw (global-started (clock (s.readings + 1)) (clock s.readings) m s' refl hc, hf) refl,
      )
