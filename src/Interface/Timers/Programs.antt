-- ===== src/Interface/Timers/Programs.antt =====
-- C programs that time regions through src/grvy_timer_interface.cpp.
use grvy.Base.{
  ℕ, ◌+◌, Option, none, some, List, [], ◌∷◌, ◌≡◌, refl, Result, ok, ◌>>=◌, Result-cases, inl, inr,
  arith, true, false,
}
use grvy.Base.Int.{ℤ, ◌-ℤ◌}
use grvy.Base.Text.{Text}
use grvy.Timer.Types.{Accumulators, Stat, Timer}
use grvy.Timer.Calls.{gtimer, now, tick, begin_timer, end_timer, reset, init, finalize, construct}
use grvy.Timer.Queries.{
  stats_count, stats_exclusive, stats_inclusive, elapsed_seconds, elapsed_global,
  set_summarize_width,
}
use grvy.Timer.Summary.{Report, summarize}
use grvy.Timer.Regions.{Regions, leave, enter, Proper, run}
use grvy.Timer.Session.{session, top_readings}
use grvy.Interface.Timers.{
  verify_timer_allocated, timer_raw, timer_begin, timer_end, timer_init, timer_reset,
  timer_finalize, timer_summarize, timer_set_summarize_width, timer_elapsed_global,
  timer_elapsedseconds, timer_elapsedseconds_inc, timer_stats_count, timer_stats,
}

-- A call of the C functions.
pub data TimerCall : Type 0 where
  raw reset_all_timers finalize_all summary global_elapsed : TimerCall
  begins ends starts elapsed elapsed_inc counts : Text → TimerCall
  width : ℤ → TimerCall
  stats stats_inc : Stat → Text → TimerCall

-- What a call returns.
pub data TimerAnswer : Type 0 where
  nothing : TimerAnswer
  seconds : ℤ → TimerAnswer
  count : ℕ → TimerAnswer
  shows : Report → TimerAnswer

-- The calls that time the regions, before further calls, and their answers.
abbrev pub region_calls : Regions → List TimerCall → List TimerCall
region_calls leave tail = tail
region_calls (enter id inner rest) tail =
    begins id ∷ region_calls inner (ends id ∷ region_calls rest tail)

abbrev pub answers_of : Regions → List TimerAnswer → List TimerAnswer
answers_of leave tail = tail
answers_of (enter id inner rest) tail = nothing ∷ answers_of inner (nothing ∷ answers_of rest tail)

module _ {A : Type 0} (acc : Accumulators A) (clock : ℕ → ℤ) where
  abbrev done : Result (Option (Timer A)) → Result (TimerAnswer × Option (Timer A))
  done r = r >>= λ p. ok (nothing, p)

  abbrev gives :
      {B : Type 0}
      → (B → TimerAnswer)
      → Result (B × Option (Timer A))
      → Result (TimerAnswer × Option (Timer A))
  gives answer r = r >>= λ x. ok (answer x.0, x.1)

  abbrev pub c_timer_call : TimerCall → Option (Timer A) → Result (TimerAnswer × Option (Timer A))
  c_timer_call raw p = gives seconds (timer_raw acc clock p)
  c_timer_call reset_all_timers p = done (timer_reset acc clock p)
  c_timer_call finalize_all p = done (timer_finalize acc clock p)
  c_timer_call summary p = gives shows (timer_summarize acc clock p)
  c_timer_call global_elapsed p = gives seconds (timer_elapsed_global acc clock p)
  c_timer_call (begins id) p = done (timer_begin acc clock id p)
  c_timer_call (ends id) p = done (timer_end acc clock id p)
  c_timer_call (starts id) p = done (timer_init acc clock id p)
  c_timer_call (elapsed id) p = gives seconds (timer_elapsedseconds acc clock id p)
  c_timer_call (elapsed_inc id) p = gives seconds (timer_elapsedseconds_inc acc clock id p)
  c_timer_call (counts id) p = gives count (timer_stats_count acc clock id p)
  c_timer_call (width w) p = gives count (timer_set_summarize_width acc clock w p)
  c_timer_call (stats stat id) p = gives seconds (timer_stats acc clock false stat id p)
  c_timer_call (stats_inc stat id) p = gives seconds (timer_stats acc clock true stat id p)

  -- The methods.
  abbrev pub method_timer_call : TimerCall → Timer A → Result (TimerAnswer × Timer A)
  method_timer_call raw s = ok (seconds (now acc clock s), tick acc clock s)
  method_timer_call reset_all_timers s = reset acc clock s >>= λ s'. ok (nothing, s')
  method_timer_call finalize_all s = finalize acc clock s >>= λ s'. ok (nothing, s')
  method_timer_call summary s = summarize acc clock s >>= λ r. ok (shows r.0, r.1)
  method_timer_call global_elapsed s =
      let (e, s') = elapsed_global acc clock s in ok (seconds e, s')
  method_timer_call (begins id) s = begin_timer acc clock id s >>= λ s'. ok (nothing, s')
  method_timer_call (ends id) s = end_timer acc clock id s >>= λ s'. ok (nothing, s')
  method_timer_call (starts id) s = init acc clock id s >>= λ s'. ok (nothing, s')
  method_timer_call (elapsed id) s = ok (seconds (elapsed_seconds acc clock id true s), s)
  method_timer_call (elapsed_inc id) s = ok (seconds (elapsed_seconds acc clock id false s), s)
  method_timer_call (counts id) s = ok (count (stats_count acc clock id s), s)
  method_timer_call (width w) s =
      let (code, s') = set_summarize_width acc clock w s in ok (count code, s')
  method_timer_call (stats stat id) s = ok (seconds (stats_exclusive acc clock id stat s), s)
  method_timer_call (stats_inc stat id) s = ok (seconds (stats_inclusive acc clock id stat s), s)

  abbrev pub c_timer_calls :
      List TimerCall → Option (Timer A) → Result (List TimerAnswer × Option (Timer A))
  c_timer_calls [] p = ok ([], p)
  c_timer_calls (c ∷ cs) p = do
    (a, p') ← c_timer_call c p
    (more, p'') ← c_timer_calls cs p'
    ok (a ∷ more, p'')

  abbrev pub method_timer_calls : List TimerCall → Timer A → Result (List TimerAnswer × Timer A)
  method_timer_calls [] s = ok ([], s)
  method_timer_calls (c ∷ cs) s = do
    (a, s') ← method_timer_call c s
    (more, s'') ← method_timer_calls cs s'
    ok (a ∷ more, s'')

  abbrev pub shared_timer : {B : Type 0} → Result (B × Timer A) → Result (B × Option (Timer A))
  shared_timer r = r >>= λ x. ok (x.0, some x.1)

  c_timer_call-method :
      (c : TimerCall) (p : Option (Timer A))
      → c_timer_call c p
        ≡ (verify_timer_allocated acc clock p >>= (λ s. shared_timer (method_timer_call c s)))
  unfolding timer_raw timer_begin timer_end timer_init timer_reset timer_finalize timer_summarize
      timer_set_summarize_width timer_elapsed_global timer_elapsedseconds timer_elapsedseconds_inc
      timer_stats_count timer_stats
  c_timer_call-method raw p = ground arith
  c_timer_call-method reset_all_timers p = ground arith
  c_timer_call-method finalize_all p = ground arith
  c_timer_call-method summary p = ground arith
  c_timer_call-method global_elapsed p = ground arith
  c_timer_call-method (begins id) p = ground arith
  c_timer_call-method (ends id) p = ground arith
  c_timer_call-method (starts id) p = ground arith
  c_timer_call-method (elapsed id) p = ground arith
  c_timer_call-method (elapsed_inc id) p = ground arith
  c_timer_call-method (counts id) p = ground arith
  c_timer_call-method (width w) p = ground arith
  c_timer_call-method (stats stat id) p = ground arith
  c_timer_call-method (stats_inc stat id) p = ground arith

  c_timer_calls-method :
      (cs : List TimerCall) (s : Timer A)
      → c_timer_calls cs (some s) ≡ shared_timer (method_timer_calls cs s)
  unfolding verify_timer_allocated
  c_timer_calls-method [] s = refl
  c_timer_calls-method (c ∷ cs) s = elim (Result-cases (method_timer_call c s)) [
    | inl ((a, s'), e) ↦
        ground (arith, c_timer_call-method c (some s), e, c_timer_calls-method cs s')
    | inr (f, e) ↦ ground (arith, c_timer_call-method c (some s), e)
  ]

  -- Any sequence of calls of the C functions, from the start of the program, gives the answers of the
  -- methods on one object from its constructor on, stops where those do, and leaves their state.
  pub c_timer_calls-construct :
      (c : TimerCall) (cs : List TimerCall)
      → c_timer_calls (c ∷ cs) none
        ≡ (construct acc clock >>= (λ s. shared_timer (method_timer_calls (c ∷ cs) s)))
  unfolding verify_timer_allocated
  c_timer_calls-construct c cs = elim (Result-cases (construct acc clock)) [
    | inr (f, e) ↦ ground (arith, c_timer_call-method c none, e)
    | inl (s, e) ↦ elim (Result-cases (method_timer_call c s)) [
      | inl ((a, s'), h) ↦
          ground (arith, c_timer_call-method c none, e, h, c_timer_calls-method cs s')
      | inr (f, h) ↦ ground (arith, c_timer_call-method c none, e, h)
    ]
  ]

  run-calls :
      (r : Regions) (tail : List TimerCall) (s : Timer A)
      → method_timer_calls (region_calls r tail) s ≡ (
          run acc clock r s
          >>= (λ s'. method_timer_calls tail s' >>= (λ x. ok (answers_of r x.0, x.1))))
  run-calls leave tail s = elim (Result-cases (method_timer_calls tail s)) [
    | inl (x, e) ↦ ground (arith, e)
    | inr (f, e) ↦ ground (arith, e)
  ]
  run-calls (enter id inner rest) tail s = elim (Result-cases (begin_timer acc clock id s)) [
    | inr (f, e) ↦ ground (arith, e)
    | inl (begun, e) ↦
        let ih = run-calls inner (ends id ∷ region_calls rest tail) begun in
        elim (Result-cases (run acc clock inner begun)) [
          | inr (f, h) ↦ ground (arith, e, h, ih)
          | inl (left, h) ↦ elim (Result-cases (end_timer acc clock id left)) [
            | inr (f, h2) ↦ ground (arith, e, h, h2, ih)
            | inl (ended, h2) ↦
                let ih2 = run-calls rest tail ended in
                elim (Result-cases (run acc clock rest ended)) [
                  | inr (f, h3) ↦ ground (arith, e, h, h2, h3, ih, ih2)
                  | inl (last, h3) ↦ elim (Result-cases (method_timer_calls tail last)) [
                    | inr (f, h4) ↦ ground (arith, e, h, h2, h3, h4, ih, ih2)
                    | inl (x, h4) ↦ ground (arith, e, h, h2, h3, h4, ih, ih2)
                  ]
                ]
          ]
        ]
  ]

  -- A C program that begins with grvy_timer_init, times regions one after another, calls
  -- grvy_timer_finalize and asks for the seconds of the global timer gets the time from the
  -- initialisation to the end, whatever the regions, with no fault. The names are plain, and no region
  -- is within one of the same name.
  pub c_timer_calls-session :
      (name : Text) (regions : Regions)
      → Proper regions
      → (s : Timer A) × (c_timer_calls
            (starts name ∷ region_calls regions (finalize_all ∷ elapsed gtimer ∷ []))
            none
          ≡ ok (
            nothing
                ∷ answers_of regions
                    (nothing ∷ seconds (clock (2 + top_readings regions) -ℤ clock 1) ∷ []),
            some s,
          ))
  c_timer_calls-session name regions p =
      let (s, runs, _, _, _, time) = session acc clock name regions p in
      let calls = region_calls regions (finalize_all ∷ elapsed gtimer ∷ []) in
      let shown = c_timer_calls-construct (starts name) calls in
      elim (Result-cases (construct acc clock)) [
        | inr (f, e) ↦ absurd (ground (arith, e, runs))
        | inl (built, e) ↦ elim (Result-cases (init acc clock name built)) [
          | inr (f, e2) ↦ absurd (ground (arith, e, e2, runs))
          | inl (up, e2) ↦
              let through = run-calls regions (finalize_all ∷ elapsed gtimer ∷ []) up in
              elim (Result-cases (run acc clock regions up)) [
                | inr (f, e3) ↦ absurd (ground (arith, e, e2, e3, runs))
                | inl (last, e3) ↦ (s, ground (arith, e, e2, e3, runs, time, through, shown))
              ]
        ]
      ]
