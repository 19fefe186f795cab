-- ===== src/Timer/Times.antt =====
-- The times that the timers of src/grvy_timer.cpp report for a region.
use grvy.Base.{
  ℕ, suc, ◌+◌, ◌≤◌, true, false, Option, none, some, List, [], ◌∷◌, length, ◌≡◌, ◌≢◌, refl, ap, sym,
  ◌∙◌, ok, arith,
}
use grvy.Base.Map.{find, modify}
use grvy.Base.Map.Laws.{find-modify}
use grvy.Base.Int.{ℤ, pos, ◌+ℤ◌, ◌-ℤ◌, int_laws}
use grvy.Base.Text.{Text, text_key, text_beq_iff}
use grvy.Timer.Types.{Accumulators, TimerData, Timer}
use grvy.Timer.Data.{start_entry, end_data}
use grvy.Timer.Queries.{elapsed_seconds, stats_count}
use grvy.Timer.Regions.{Regions, leave, enter, Foreign, Proper, num_readings, run, stops}
use grvy.Timer.Steps.{at_self, at, started, find-start_entry, outermost_begin, outermost_end}
use grvy.Timer.Around.{Ran, map_begun, map_ended, id-begun, around-begun, find-map_ended}
use grvy.Timer.Nesting.{region-run, run-Ran}

-- What a timer has recorded: exclusive and inclusive times, and the number of samples.
abbrev pub recorded : {A : Type 0} → Accumulators A → Option (TimerData A) → ℤ × ℤ × ℕ
recorded acc none = (pos 0, pos 0, 0)
recorded acc (some d) = (d.timings_0, d.timings_inc_0, acc.count d.stats)

module _ {A : Type 0} (acc : Accumulators A) (clock : ℕ → ℤ) where
  increment_lem :
      (now a t1 b1 t : ℤ) → a -ℤ t1 ≡ (pos 0 -ℤ b1) -ℤ t → (now -ℤ t1) +ℤ a ≡ (now -ℤ b1) -ℤ t
  increment_lem now a t1 b1 t h = grind (int_laws, h)

  -- The end of a timer that was started at the reading k and stood still for the time t.
  pub end-recorded :
      (id : Text) (inner : Regions) (k e : ℕ) (t : ℤ) (o : Option (TimerData A))
      (m m2 : List (Text × TimerData A))
      → (r : Ran id inner (started acc (clock k) o) m m2 t)
      → recorded acc (some (end_data acc (clock e) r.outer_data)) ≡ (
        (recorded acc o).0 +ℤ ((clock e -ℤ clock k) -ℤ t),
        (recorded acc o).1 +ℤ (clock e -ℤ clock k),
        (recorded acc o).2 + 1,
      )
  end-recorded id inner k e t none m m2 r =
      let increment =
        increment_lem (clock e) r.outer_data.accumulated r.outer_data.timings_1 (clock k) t
          r.outer_credit in
      let kept = r.outer_kept in
      let counted =
        acc.count-add acc.empty ((clock e -ℤ r.outer_data.timings_1) +ℤ r.outer_data.accumulated) in
      let none_counted = acc.count-empty in cc
  end-recorded id inner k e t (some d) m m2 r =
      let increment =
        increment_lem (clock e) r.outer_data.accumulated r.outer_data.timings_1 (clock k) t
          r.outer_credit in
      let kept = r.outer_kept in
      let counted =
        acc.count-add d.stats ((clock e -ℤ r.outer_data.timings_1) +ℤ r.outer_data.accumulated) in
      cc

  -- A region leaves the stack of timers as it was, and adds to its timer's times and samples.
  pub Timed : Text → Timer A → Timer A → ℤ → ℤ → Type 0
  Timed id s s' ex inc =
      (s'.num_begins ≡ s.num_begins)
      × (s'.callgraph ≡ s.callgraph)
      × (elapsed_seconds acc clock id true s' ≡ (recorded acc (find id s.timer_map)).0 +ℤ ex)
      × (elapsed_seconds acc clock id false s' ≡ (recorded acc (find id s.timer_map)).1 +ℤ inc)
      × (stats_count acc clock id s' ≡ (recorded acc (find id s.timer_map)).2 + 1)

  Timed-of :
      (id : Text) (s s' : Timer A) (now : ℤ) (x : TimerData A) (ex inc : ℤ)
      → s'.num_begins ≡ s.num_begins
      → s'.callgraph ≡ s.callgraph
      → find id s'.timer_map ≡ some (end_data acc now x)
      → recorded acc (some (end_data acc now x)) ≡ (
        (recorded acc (find id s.timer_map)).0 +ℤ ex,
        (recorded acc (find id s.timer_map)).1 +ℤ inc,
        (recorded acc (find id s.timer_map)).2 + 1,
      )
      → Timed id s s' ex inc
  unfolding Timed elapsed_seconds stats_count
  Timed-of id s s' now x ex inc hn hc hf hr = (
    hn,
    hc,
    rw (elapsed_seconds, hf) (ap (λ r. r.0) hr),
    rw (elapsed_seconds, hf) (ap (λ r. r.1) hr),
    rw (stats_count, hf) (ap (λ r. r.2) hr),
  )

  id-ended :
      (id outer : Text) (e : ℕ) (x : TimerData A) (m : List (Text × TimerData A))
      → find id m ≡ some x
      → outer ≢ id
      → find id (map_ended acc clock id outer e m) ≡ some (end_data acc (clock e) x)
  id-ended id outer e x m hx h =
      ground
        (arith, hx, text_beq_iff id id, find-map_ended acc clock id outer id e m (λ q. h (sym q)))

  -- Inside another timed region, BeginTimer, the regions inside and EndTimer run without a fault,
  -- leave the stack of timers as it was, add the time from the begin to the end to the inclusive
  -- time, the same less all times from a pause to the resumption to the exclusive time, and one
  -- sample. The names are plain, and none is within a region of the same name.
  pub nested_times :
      (id outer : Text) (inner : Regions) (s : Timer A) (n : ℕ) (rest : List Text) (d : TimerData A)
      → s.num_begins ≡ pos n
      → s.callgraph ≡ outer ∷ rest
      → 2 ≤ n
      → n ≡ suc (length rest)
      → find outer s.timer_map ≡ some d
      → Foreign outer (enter id inner leave)
      → Proper (enter id inner leave)
      → (s' : Timer A) × (run acc clock (enter id inner leave) s ≡ ok s')
        × Timed id s s'
            ((clock (s.readings + 2 + num_readings inner) -ℤ clock s.readings)
              -ℤ stops clock inner (s.readings + 2))
            (clock (s.readings + 2 + num_readings inner) -ℤ clock s.readings)
  nested_times id outer inner s n rest d en ec hn hl hd f p =
      let m = s.timer_map in
      let k = s.readings in
      let b = started acc (clock k) (find id m) in
      let e = k + 2 + num_readings inner in
      let t = stops clock inner (k + 2) in
      let (m2, run2, ran2) =
        run-Ran acc clock inner s (n + 1) id (outer ∷ rest) b (map_begun acc clock id outer k m)
          (k + 2) (omega arith) (omega arith) (id-begun acc clock id outer k m f.0) p.1 p.2 in
      let h2 = around-begun acc clock id outer inner k d b m m2 t hd f.0 f.1 ran2 in
      (
        at s n (outer ∷ rest) (map_ended acc clock id outer e m2) (e + 2),
        ap (λ x. run acc clock (enter id inner leave) x) (sym (at_self s n (outer ∷ rest) en ec))
            ∙ region-run acc clock id outer inner leave s n rest d ran2.outer_data m m2 k e hn hl hd
                p.0 run2 ran2.outer_found h2,
        Timed-of id s _ (clock e) ran2.outer_data _ _ (sym en) (sym ec)
            (id-ended id outer e ran2.outer_data m2 ran2.outer_found f.0)
            (end-recorded id inner k e t (find id m) (map_begun acc clock id outer k m) m2 ran2),
      )

  -- Directly inside the global timer, BeginTimer, the regions inside and EndTimer run without a
  -- fault, leave the stack of timers as it was, add the time from the begin to the end to the
  -- inclusive time, the same less all times from a pause to the resumption to the exclusive time,
  -- and one sample. The names are plain, and none is within a region of the same name.
  pub outermost_times :
      (id g : Text) (inner : Regions) (s : Timer A)
      → s.num_begins ≡ pos 1
      → s.callgraph ≡ g ∷ []
      → Proper (enter id inner leave)
      → (s' : Timer A) × (run acc clock (enter id inner leave) s ≡ ok s')
        × Timed id s s'
            ((clock (s.readings + 1 + num_readings inner) -ℤ clock s.readings)
              -ℤ stops clock inner (s.readings + 1))
            (clock (s.readings + 1 + num_readings inner) -ℤ clock s.readings)
  outermost_times id g inner s en ec p =
      let m = s.timer_map in
      let k = s.readings in
      let b = started acc (clock k) (find id m) in
      let m1 = start_entry acc id (clock k) m in
      let e = k + 1 + num_readings inner in
      let t = stops clock inner (k + 1) in
      let found_id : find id m1 ≡ some b =
        ground (arith, text_beq_iff id id, find-start_entry acc id id (clock k) m) in
      let (m2, run2, ran2) =
        run-Ran acc clock inner s 2 id (g ∷ []) b m1 (k + 1) (omega arith) (omega arith) found_id
          p.1 p.2 in
      let found_end : find id (modify id (end_data acc (clock e)) m2)
          ≡ some (end_data acc (clock e) ran2.outer_data) =
        ground (
          arith,
          ran2.outer_found,
          text_beq_iff id id,
          find-modify id id (end_data acc (clock e)) m2,
        ) in
      (
        at s 1 (g ∷ []) (modify id (end_data acc (clock e)) m2) (e + 1),
        ap (λ x. run acc clock (enter id inner leave) x) (sym (at_self s 1 (g ∷ []) en ec))
            ∙ rw
                (
                  outermost_begin acc clock id g s m k,
                  run2,
                  outermost_end acc clock id g s m2 e ran2.outer_data ran2.outer_found p.0,
                )
                refl,
        Timed-of id s _ (clock e) ran2.outer_data _ _ (sym en) (sym ec) found_end
            (end-recorded id inner k e t (find id m) m1 m2 ran2),
      )
