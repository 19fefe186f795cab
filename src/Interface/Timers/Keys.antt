-- ===== src/Interface/Timers/Keys.antt =====
-- The calls of the C functions in src/grvy_timer_interface.cpp keep the names of the timers apart,
-- and the global timer.
use mathlib.Core.Path.{subst}
use grvy.Base.{
  ℕ, true, Option, none, some, List, [], ◌∷◌, leb, ◌≡◌, sym, Result, ok, fail, ◌>>=◌, arith,
  Result-cases, Bool-cases, inl, inr,
}
use grvy.Base.Map.{Unique}
use grvy.Base.Int.{ℤ, pos, negsuc}
use grvy.Base.Text.{Text, text_key}
use grvy.Timer.Types.{Accumulators, TimerData, Timer}
use grvy.Timer.Calls.{construct}
use grvy.Timer.Summary.{summarize}
use grvy.Timer.Queries.{elapsed_global, set_summarize_width}
use grvy.Timer.Keys.{has_global, CallKeeps, AnswerKeeps, same_keys, bind-AnswerKeeps_pair}
use grvy.Timer.Keys.Calls.{
  begin_timer-keeps, end_timer-keeps, reset-keeps, init-keeps, finalize-keeps, summarize-keeps,
  construct_keys,
}
use grvy.Interface.Timers.{verify_timer_allocated}
use grvy.Interface.Timers.Programs.{
  TimerCall, raw, reset_all_timers, finalize_all, summary, global_elapsed, begins, ends, starts,
  elapsed, elapsed_inc, counts, width, stats, stats_inc, TimerAnswer, method_timer_call,
  method_timer_calls, c_timer_calls, c_timer_calls-construct,
}

module _ {A : Type 0} (acc : Accumulators A) (clock : ℕ → ℤ) where
  answered_keeps :
      {B : Type 0}
      → (m : List (Text × TimerData A)) (r : Result (Timer A)) (b : B) → CallKeeps m r
      → AnswerKeeps m (r >>= λ s'. ok (b, s'))
  answered_keeps m (ok s') b h = h
  answered_keeps m (fail e) b h = tt

  method_timer_call-keeps :
      (c : TimerCall) (s : Timer A) → AnswerKeeps s.timer_map (method_timer_call acc clock c s)
  unfolding elapsed_global set_summarize_width
  method_timer_call-keeps raw s = same_keys s.timer_map
  method_timer_call-keeps reset_all_timers s =
      answered_keeps s.timer_map _ _ (reset-keeps acc clock s)
  method_timer_call-keeps finalize_all s =
      answered_keeps s.timer_map _ _ (finalize-keeps acc clock s)
  method_timer_call-keeps summary s =
      bind-AnswerKeeps_pair s.timer_map (summarize acc clock s) _ (summarize-keeps acc clock s)
        (λ b t. same_keys t.timer_map)
  method_timer_call-keeps global_elapsed s = same_keys s.timer_map
  method_timer_call-keeps (begins id) s =
      answered_keeps s.timer_map _ _ (begin_timer-keeps acc clock id s)
  method_timer_call-keeps (ends id) s =
      answered_keeps s.timer_map _ _ (end_timer-keeps acc clock id s)
  method_timer_call-keeps (starts id) s = answered_keeps s.timer_map _ _ (init-keeps acc clock id s)
  method_timer_call-keeps (elapsed id) s = same_keys s.timer_map
  method_timer_call-keeps (elapsed_inc id) s = same_keys s.timer_map
  method_timer_call-keeps (counts id) s = same_keys s.timer_map
  method_timer_call-keeps (width (negsuc n)) s = same_keys s.timer_map
  method_timer_call-keeps (width (pos n)) s = elim (Bool-cases (leb n 120)) [
    | inl e ↦ rw e (same_keys s.timer_map)
    | inr e ↦ rw e (same_keys s.timer_map)
  ]
  method_timer_call-keeps (stats stat id) s = same_keys s.timer_map
  method_timer_call-keeps (stats_inc stat id) s = same_keys s.timer_map

  method_timer_calls-keeps :
      (cs : List TimerCall) (s : Timer A)
      → AnswerKeeps s.timer_map (method_timer_calls acc clock cs s)
  method_timer_calls-keeps [] s = same_keys s.timer_map
  method_timer_calls-keeps (c ∷ cs) s =
      bind-AnswerKeeps_pair s.timer_map (method_timer_call acc clock c s) _
        (method_timer_call-keeps c s)
        (λ a t.
          bind-AnswerKeeps_pair t.timer_map (method_timer_calls acc clock cs t) _
            (method_timer_calls-keeps cs t) (λ more u. same_keys u.timer_map))

  -- The object that the next call works on, after calls from the start of the program.
  pub c_timer_calls-keys :
      (cs : List TimerCall) (answers : List TimerAnswer) (p : Option (Timer A)) (s : Timer A)
      → c_timer_calls acc clock cs none ≡ ok (answers, p)
      → verify_timer_allocated acc clock p ≡ ok s
      → Unique s.timer_map × (has_global s.timer_map ≡ true)
  unfolding verify_timer_allocated
  c_timer_calls-keys [] answers none s e h = construct_keys acc clock s h
  c_timer_calls-keys [] answers (some t) s e h = absurd (cc (e))
  c_timer_calls-keys (c ∷ cs) answers p s e h = elim (Result-cases (construct acc clock)) [
    | inr (f, b) ↦ absurd (ground (arith, c_timer_calls-construct acc clock c cs, e, b))
    | inl (built, b) ↦ elim (Result-cases (method_timer_calls acc clock (c ∷ cs) built)) [
      | inr (f, g) ↦ absurd (ground (arith, c_timer_calls-construct acc clock c cs, e, b, g))
      | inl ((found, s'), g) ↦
          let same : s' ≡ s = ground (arith, c_timer_calls-construct acc clock c cs, e, b, g, h) in
          let (unique, global) = construct_keys acc clock built b in
          let (u, k) =
            subst (AnswerKeeps built.timer_map) g (method_timer_calls-keeps (c ∷ cs) built) in
          rw (sym same) (u unique, k global)
    ]
  ]
