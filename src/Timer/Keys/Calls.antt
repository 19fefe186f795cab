-- ===== src/Timer/Keys/Calls.antt =====
-- Each operation on timers in src/grvy_timer.cpp keeps the names in the map apart, and the global timer.
use mathlib.Core.Path.{subst}
use grvy.Base.{
  ℕ, Bool, true, false, ◌≡◌, refl, if◌then◌else◌, Result, ok, Option-cases, Result-cases,
  Bool-cases, inl, inr,
}
use grvy.Base.Map.{find, insert, modify, Unique}
use grvy.Base.Int.{ℤ, pos, ◌+ℤ◌, ltb_ℤ}
use grvy.Base.Text.{Text, text_beq, text_key}
use grvy.Timer.Types.{Accumulators, Timer}
use grvy.Timer.Data.{start_entry, end_data, reset_all}
use grvy.Timer.Calls.{
  gtimer, second_char_negative, pause_timer, resume_timer, begin_timer, pop_callgraph, end_found,
  end_branches, end_timer, reset, init, finalize, construct, snapshot, tick,
}
use grvy.Timer.Summary.{report, summarize}
use grvy.Timer.Keys.{
  AnswerKeeps, CallKeeps, KeepsKeys, KeepsKeys-trans, Keyed, bind-AnswerKeeps, bind-CallKeeps,
  has_global, modify-KeepsKeys, outer_keeps, reset_all-KeepsKeys, same_keys, start_entry-KeepsKeys,
  then-CallKeeps,
}

module _ {A : Type 0} (acc : Accumulators A) (clock : ℕ → ℤ) where
  pause_timer-keeps : (id : Text) (s : Timer A) → CallKeeps s.timer_map (pause_timer acc clock id s)
  unfolding pause_timer
  pause_timer-keeps id s = elim (Option-cases (find id s.timer_map)) [
    | inl e ↦ rw (e, pause_timer) tt
    | inr (d, e) ↦ rw (e, pause_timer) (modify-KeepsKeys id _ s.timer_map)
  ]

  resume_timer-keeps :
      (id : Text) (s : Timer A) → CallKeeps s.timer_map (resume_timer acc clock id s)
  unfolding resume_timer
  resume_timer-keeps id s = elim (Option-cases (find id s.timer_map)) [
    | inl e ↦ rw (e, resume_timer) tt
    | inr (d, e) ↦ rw (e, resume_timer) (modify-KeepsKeys id _ s.timer_map)
  ]

  pub begin_timer-keeps :
      (id : Text) (s : Timer A) → CallKeeps s.timer_map (begin_timer acc clock id s)
  unfolding begin_timer
  begin_timer-keeps id s =
      let counted = record (tick acc clock s) { num_begins = s.num_begins +ℤ pos 1 } in
      bind-CallKeeps s.timer_map _ _
        (outer_keeps (ltb_ℤ (pos 2) counted.num_begins) s.callgraph (pause_timer acc clock) counted
          (λ outer. pause_timer-keeps outer counted))
        (λ t. start_entry-KeepsKeys acc id (clock s.readings) t.timer_map)

  end_found-keeps :
      (id : Text) (mytime : ℤ) (s : Timer A)
      → CallKeeps s.timer_map (end_found acc clock id mytime s)
  unfolding end_found
  end_found-keeps id mytime s =
      let popped = record s {
        timer_map = modify id (end_data acc mytime) s.timer_map;
        callgraph = pop_callgraph acc clock s.callgraph;
      } in
      bind-CallKeeps s.timer_map _ _
        (then-CallKeeps s.timer_map popped.timer_map _
          (modify-KeepsKeys id (end_data acc mytime) s.timer_map)
          (outer_keeps (ltb_ℤ (pos 2) s.num_begins) popped.callgraph (resume_timer acc clock) popped
            (λ outer. resume_timer-keeps outer popped)))
        (λ t. same_keys t.timer_map)

  end_branches-keeps :
      (id : Text) (mytime : ℤ) (s : Timer A)
      → CallKeeps s.timer_map (end_branches acc clock id mytime s)
  unfolding end_branches
  end_branches-keeps id mytime s = elim (Option-cases (find id s.timer_map)) [
    | inl e ↦ rw (e, end_branches) (same_keys s.timer_map)
    | inr (d, e) ↦ elim (Result-cases (second_char_negative id)) [
      | inr (f, h) ↦ rw (e, h, end_branches) tt
      | inl (true, h) ↦ rw (e, h, end_branches) (same_keys s.timer_map)
      | inl (false, h) ↦ rw (e, h, end_branches) (end_found-keeps id mytime s)
    ]
  ]

  snapshot-keeps :
      (id : Text) (s : Timer A) → KeepsKeys s.timer_map (snapshot acc clock id s).timer_map
  snapshot-keeps id s = elim (Bool-cases (text_beq id gtimer)) [
    | inl e ↦ rw e (same_keys s.timer_map)
    | inr e ↦ rw e (same_keys s.timer_map)
  ]

  pub end_timer-keeps : (id : Text) (s : Timer A) → CallKeeps s.timer_map (end_timer acc clock id s)
  unfolding end_timer
  end_timer-keeps id s =
      bind-CallKeeps s.timer_map _ _ (end_branches-keeps id (clock s.readings) (tick acc clock s))
        (λ t. snapshot-keeps id t)

  pub reset-keeps : (s : Timer A) → CallKeeps s.timer_map (reset acc clock s)
  unfolding reset
  reset-keeps s =
      let cleared = record s { num_begins = pos 0; timer_map = reset_all acc s.timer_map } in
      then-CallKeeps s.timer_map cleared.timer_map (begin_timer acc clock gtimer cleared)
        (reset_all-KeepsKeys acc s.timer_map) (begin_timer-keeps gtimer cleared)

  pub init-keeps : (name : Text) (s : Timer A) → CallKeeps s.timer_map (init acc clock name s)
  unfolding init
  init-keeps name s = reset-keeps (record s { initialized = true; timer_name = name })

  pub finalize-keeps : (s : Timer A) → CallKeeps s.timer_map (finalize acc clock s)
  unfolding finalize
  finalize-keeps s =
      bind-CallKeeps s.timer_map _ _ (end_timer-keeps gtimer s) (λ t. same_keys t.timer_map)

  report-keeps : (s : Timer A) → AnswerKeeps s.timer_map (report acc clock s)
  unfolding report
  report-keeps s = elim (Option-cases (find gtimer s.timer_map)) [
    | inl e ↦ rw (e, report) tt
    | inr (d, e) ↦
        rw (e, report)
          (KeepsKeys-trans _ _ _ (modify-KeepsKeys gtimer _ s.timer_map)
            (modify-KeepsKeys gtimer _ _))
  ]

  finalized_keeps :
      (b : Bool) (s : Timer A) → CallKeeps s.timer_map (if b then ok s else finalize acc clock s)
  finalized_keeps true s = same_keys s.timer_map
  finalized_keeps false s = finalize-keeps s

  pub summarize-keeps : (s : Timer A) → AnswerKeeps s.timer_map (summarize acc clock s)
  unfolding summarize
  summarize-keeps s =
      bind-AnswerKeeps s.timer_map (if s.finalized then ok s else finalize acc clock s) _
        (finalized_keeps s.finalized s) report-keeps

  -- The map that the constructor makes.
  pub construct_keys :
      (s : Timer A)
      → construct acc clock ≡ ok s
      → Unique s.timer_map × (has_global s.timer_map ≡ true)
  unfolding construct begin_timer start_entry find insert gtimer ◌+ℤ◌ text_beq
  construct_keys s h = subst (λ (r : Result (Timer A)). Keyed r) h ((refl, tt), refl)
