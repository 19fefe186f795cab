-- ===== src/Timer/Session.antt =====
-- A whole run of the timers of src/grvy_timer.cpp: start, regions one after another, finalize.
use grvy.Base.{ℕ, ◌+◌, true, false, some, List, [], ◌∷◌, ◌≡◌, ◌≢◌, refl, ap, ◌∙◌, ok, ◌>>=◌, arith}
use grvy.Base.Map.{find, insert, modify}
use grvy.Base.Map.Laws.{find-modify}
use grvy.Base.Int.{ℤ, pos, ◌+ℤ◌, ◌-ℤ◌, int_laws}
use grvy.Base.Text.{Text, text_beq, text_key, text_beq_iff}
use grvy.Timer.Types.{Accumulators, TimerData, Timer}
use grvy.Timer.Data.{no_stamp, first_begin, next_begin, start_entry, end_data, reset_all}
use grvy.Timer.Calls.{
  gtimer, second_char_negative, exceeds_size, begin_timer, end_timer, end_branches, end_found,
  construct, init, reset, finalize,
}
use grvy.Timer.Queries.{elapsed_seconds}
use grvy.Timer.Regions.{Regions, leave, enter, Foreign, IsPlain, Proper, num_readings, run, stops}
use grvy.Timer.Steps.{at, started, find-start_entry, outermost_begin, outermost_end}
use grvy.Timer.Around.{Ran}
use grvy.Timer.Nesting.{run-Ran}

-- The readings of the clock in regions directly inside the global timer.
abbrev pub top_readings : Regions → ℕ
top_readings leave = 0
top_readings (enter id inner rest) = 2 + num_readings inner + top_readings rest

-- Plain names are not the global timer's.
Proper-Foreign : (regions : Regions) → Proper regions → Foreign gtimer regions
Proper-Foreign leave p = tt
Proper-Foreign (enter id inner rest) (a, b, c, d) =
    (ground (arith, a.0, text_beq_iff id gtimer), Proper-Foreign inner c, Proper-Foreign rest d)

zeros : (a b : ℤ) → pos 0 +ℤ ((a -ℤ b) +ℤ pos 0) ≡ a -ℤ b
zeros a b = grind int_laws

module _ {A : Type 0} (acc : Accumulators A) (clock : ℕ → ℤ) where
  -- From the begin of a region to its end, and on.
  region_first :
      (id : Text) (inner next : Regions) (s : Timer A) (m m2 : List (Text × TimerData A)) (k e : ℕ)
      (x : TimerData A)
      → run acc clock inner (at s 2 (id ∷ gtimer ∷ []) (start_entry acc id (clock k) m) (k + 1))
        ≡ ok (at s 2 (id ∷ gtimer ∷ []) m2 e)
      → find id m2 ≡ some x
      → IsPlain id
      → run acc clock (enter id inner next) (at s 1 (gtimer ∷ []) m k)
        ≡ run acc clock next (at s 1 (gtimer ∷ []) (modify id (end_data acc (clock e)) m2) (e + 1))
  region_first id inner next s m m2 k e x run2 found p =
      rw
        (
          outermost_begin acc clock id gtimer s m k,
          run2,
          outermost_end acc clock id gtimer s m2 e x found p,
        )
        refl

  -- The global timer goes on through a region.
  global_kept :
      (id : Text) (inner : Regions) (k e : ℕ) (b : TimerData A) (m m2 : List (Text × TimerData A))
      (t : ℤ)
      → gtimer ≢ id
      → Foreign gtimer inner
      → Ran id inner b (start_entry acc id (clock k) m) m2 t
      → find gtimer (modify id (end_data acc (clock e)) m2) ≡ find gtimer m
  global_kept id inner k e b m m2 t h f r = ground (
    arith,
    text_beq_iff id gtimer,
    find-modify id gtimer (end_data acc (clock e)) m2,
    r.elsewhere gtimer h f,
    find-start_entry acc id gtimer (clock k) m,
  )

  run-top :
      (regions : Regions) (s : Timer A) (m : List (Text × TimerData A)) (k : ℕ)
      → Proper regions
      → (m' : List (Text × TimerData A)) × (run acc clock regions (at s 1 (gtimer ∷ []) m k)
          ≡ ok (at s 1 (gtimer ∷ []) m' (k + top_readings regions)))
        × (find gtimer m' ≡ find gtimer m)
  run-top leave s m k p = (m, ap (λ i. ok (at s 1 (gtimer ∷ []) m i)) (omega arith), refl)
  run-top (enter id inner next) s m k p =
      let b = started acc (clock k) (find id m) in
      let m1 = start_entry acc id (clock k) m in
      let e = k + 1 + num_readings inner in
      let found_id : find id m1 ≡ some b =
        ground (arith, text_beq_iff id id, find-start_entry acc id id (clock k) m) in
      let (m2, run2, ran2) =
        run-Ran acc clock inner s 2 id (gtimer ∷ []) b m1 (k + 1) (omega arith) (omega arith)
          found_id p.1 p.2 in
      let (m3, run3, kept) = run-top next s (modify id (end_data acc (clock e)) m2) (e + 1) p.3 in
      let foreign = Proper-Foreign (enter id inner next) p in
      (
        m3,
        region_first id inner next s m m2 k e ran2.outer_data run2 ran2.outer_found p.0
            ∙ run3
            ∙ ap (λ i. ok (at s 1 (gtimer ∷ []) m3 i)) (omega arith),
        kept ∙ global_kept id inner k e b m m2 (stops clock inner (k + 1)) foreign.0 foreign.1 ran2,
      )

  -- The state after the constructor and Init.
  abbrev base : Text → Timer A
  base name = record {
    initialized = true;
    finalized = false;
    timer_finalize = no_stamp;
    timer_name = name;
    num_begins = pos 1;
    callgraph = [];
    timer_map = [];
    max_stdout_width = 120;
    readings = 0;
  }

  abbrev global_begun : TimerData A
  global_begun = next_begin acc (clock 1) (first_begin acc (clock 0))

  start_up :
      (name : Text)
      → (construct acc clock >>= (λ built. init acc clock name built))
        ≡ ok (at (base name) 1 (gtimer ∷ []) ((gtimer, global_begun) ∷ []) 2)
  unfolding construct init reset begin_timer start_entry find insert modify text_beq gtimer
      exceeds_size reset_all ◌+ℤ◌
  start_up name = refl

  gtimer_plain : second_char_negative gtimer ≡ ok false
  unfolding second_char_negative gtimer
  gtimer_plain = refl

  shut_down :
      (s : Timer A) (m : List (Text × TimerData A)) (k : ℕ) (d : TimerData A)
      → find gtimer m ≡ some d
      → finalize acc clock (at s 1 (gtimer ∷ []) m k)
        ≡ ok (record (at s 0 [] (modify gtimer (end_data acc (clock k)) m) (k + 1 + 1)) {
          timer_finalize = clock (k + 1);
          finalized = true;
        })
  unfolding finalize end_timer end_branches end_found ◌-ℤ◌
  shut_down s m k d h = ground (arith, h, gtimer_plain, text_beq_iff gtimer gtimer)

  global_ended :
      (m : List (Text × TimerData A)) (k : ℕ) (s : Timer A)
      → s.timer_map ≡ modify gtimer (end_data acc (clock k)) m
      → find gtimer m ≡ some global_begun
      → elapsed_seconds acc clock gtimer true s ≡ clock k -ℤ clock 1
  unfolding elapsed_seconds
  global_ended m k s e h =
      let sum = zeros (clock k) (clock 1) in
      ground (
        arith,
        e,
        h,
        sum,
        text_beq_iff gtimer gtimer,
        find-modify gtimer gtimer (end_data acc (clock k)) m,
      )

  global_found : find gtimer ((gtimer, global_begun) ∷ []) ≡ some global_begun
  unfolding find
  global_found = ground (arith, text_beq_iff gtimer gtimer)

  -- From the constructor over Init and regions one after another to Finalize no fault occurs: no
  -- timer is left on the stack and no begin counted, and the global timer has the time from the
  -- Init to the Finalize, whatever the regions. The names are plain, and no region is within one of
  -- the same name.
  pub session :
      (name : Text) (regions : Regions)
      → Proper regions
      → (s : Timer A) × (((construct acc clock >>= (λ built. init acc clock name built))
            >>= (λ up. run acc clock regions up >>= (λ done. finalize acc clock done)))
          ≡ ok s)
        × (s.num_begins ≡ pos 0)
        × (s.callgraph ≡ [])
        × (s.timer_finalize ≡ clock (3 + top_readings regions))
        × (elapsed_seconds acc clock gtimer true s ≡ clock (2 + top_readings regions) -ℤ clock 1)
  session name regions p =
      let (m, runs, kept) = run-top regions (base name) ((gtimer, global_begun) ∷ []) 2 p in
      let e = 2 + top_readings regions in
      let found : find gtimer m ≡ some global_begun = kept ∙ global_found in
      (
        record (at (base name) 0 [] (modify gtimer (end_data acc (clock e)) m) (e + 1 + 1)) {
          timer_finalize = clock (e + 1);
          finalized = true;
        },
        rw (start_up name, runs, shut_down (base name) m e global_begun found) refl,
        refl,
        refl,
        ap clock (omega arith),
        global_ended m e _ refl found,
      )
