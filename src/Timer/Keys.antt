-- ===== src/Timer/Keys.antt =====
-- The names in the map of timers of src/grvy_timer.cpp: none stands there twice, and the global timer
-- stays.
pub mod Calls
use mathlib.Core.Option
use mathlib.Core.Path.{subst}
use grvy.Base.{
  ℕ, Bool, true, false, none, some, List, [], ◌∷◌, ◌≡◌, refl, if◌then◌else◌, Result, ok, fail,
  ◌>>=◌, arith, Option-cases, Result-cases, Bool-cases, inl, inr,
}
use grvy.Base.Map.{find, insert, modify, Unique}
use grvy.Base.Map.Laws.{find-insert, find-modify, insert-Unique, modify-Unique}
use grvy.Base.Int.{ℤ, pos, ◌+ℤ◌, ltb_ℤ}
use grvy.Base.Text.{Text, text_beq, text_key}
use grvy.Timer.Types.{Accumulators, TimerData, Timer}
use grvy.Timer.Data.{first_begin, next_begin, start_entry, end_data, reset_data, reset_all}
use grvy.Timer.Calls.{
  gtimer, top, second_char_negative, pause_timer, resume_timer, begin_timer, pop_callgraph,
  end_found, end_branches, end_timer, reset, init, finalize, construct, snapshot, tick,
}
use grvy.Timer.Summary.{report, summarize}

module _ {A : Type 0} where
  abbrev pub has_global : List (Text × TimerData A) → Bool
  has_global m = elim (find gtimer m) [ none ↦ false | some d ↦ true ]

  -- What a call keeps of the map.
  abbrev pub KeepsKeys : List (Text × TimerData A) → List (Text × TimerData A) → Type 0
  KeepsKeys m m' = (Unique m → Unique m') × (has_global m ≡ true → has_global m' ≡ true)

  -- A call that returns keeps it.
  abbrev pub CallKeeps : List (Text × TimerData A) → Result (Timer A) → Type 0
  CallKeeps m (ok s') = KeepsKeys m s'.timer_map
  CallKeeps m (fail e) = Unit

  abbrev pub Keyed : Result (Timer A) → Type 0
  Keyed (ok s) = Unique s.timer_map × (has_global s.timer_map ≡ true)
  Keyed (fail e) = Unit

  -- So does a call that also answers.
  abbrev pub AnswerKeeps : {B : Type 0} → List (Text × TimerData A) → Result (B × Timer A) → Type 0
  AnswerKeeps m (ok (b, s')) = KeepsKeys m s'.timer_map
  AnswerKeeps m (fail e) = Unit

  pub modify-KeepsKeys :
      (k : Text) (f : TimerData A → TimerData A) (m : List (Text × TimerData A))
      → KeepsKeys m (modify k f m)
  modify-KeepsKeys k f m =
      (λ u. modify-Unique k f m u, λ h. ground (arith, h, find-modify k gtimer f m))

  pub find-reset_all :
      (acc : Accumulators A) (j : Text) (m : List (Text × TimerData A))
      → find j (reset_all acc m) ≡ Option.map (reset_data acc) (find j m)
  unfolding find reset_all
  find-reset_all acc j [] = refl
  find-reset_all acc j ((k, d) ∷ m) = ground (arith, find-reset_all acc j m)

  pub reset_all-Unique :
      (acc : Accumulators A) (m : List (Text × TimerData A)) → Unique m → Unique (reset_all acc m)
  unfolding reset_all
  reset_all-Unique acc [] u = tt
  reset_all-Unique acc ((k, d) ∷ m) (fresh, u) =
      (ground (arith, fresh, find-reset_all acc k m), reset_all-Unique acc m u)

  pub reset_all-KeepsKeys :
      (acc : Accumulators A) (m : List (Text × TimerData A)) → KeepsKeys m (reset_all acc m)
  reset_all-KeepsKeys acc m =
      (reset_all-Unique acc m, λ h. ground (arith, h, find-reset_all acc gtimer m))

  pub start_entry-KeepsKeys :
      (acc : Accumulators A) (id : Text) (t : ℤ) (m : List (Text × TimerData A))
      → KeepsKeys m (start_entry acc id t m)
  unfolding start_entry
  start_entry-KeepsKeys acc id t m = elim (Option-cases (find id m)) [
    | inl e ↦
        rw (e, start_entry)
          (
            λ u. insert-Unique id (first_begin acc t) m e u,
            λ h. ground (arith, h, find-insert id gtimer (first_begin acc t) m),
          )
    | inr (d, e) ↦ rw (e, start_entry) (modify-KeepsKeys id (next_begin acc t) m)
  ]

  pub KeepsKeys-trans :
      (a b c : List (Text × TimerData A)) → KeepsKeys a b → KeepsKeys b c → KeepsKeys a c
  KeepsKeys-trans a b c (u1, h1) (u2, h2) = (λ u. u2 (u1 u), λ h. h2 (h1 h))

  -- A call after a step.
  pub then-CallKeeps :
      (a b : List (Text × TimerData A)) (r : Result (Timer A))
      → KeepsKeys a b
      → CallKeeps b r
      → CallKeeps a r
  then-CallKeeps a b (ok s') h k = KeepsKeys-trans a b s'.timer_map h k
  then-CallKeeps a b (fail e) h k = tt

  pub then-AnswerKeeps :
      {B : Type 0}
      → (a b : List (Text × TimerData A)) (r : Result (B × Timer A)) → KeepsKeys a b
      → AnswerKeeps b r
      → AnswerKeeps a r
  then-AnswerKeeps a b (ok (x, s')) h k = KeepsKeys-trans a b s'.timer_map h k
  then-AnswerKeeps a b (fail e) h k = tt

  pub bind-CallKeeps :
      (m : List (Text × TimerData A)) (r : Result (Timer A)) (f : Timer A → Result (Timer A))
      → CallKeeps m r
      → ((t : Timer A) → CallKeeps t.timer_map (f t))
      → CallKeeps m (r >>= f)
  bind-CallKeeps m (fail e) f h k = tt
  bind-CallKeeps m (ok t) f h k = then-CallKeeps m t.timer_map (f t) h (k t)

  pub bind-AnswerKeeps :
      {B : Type 0}
      → (m : List (Text × TimerData A)) (r : Result (Timer A)) (f : Timer A → Result (B × Timer A))
      → CallKeeps m r
      → ((t : Timer A) → AnswerKeeps t.timer_map (f t))
      → AnswerKeeps m (r >>= f)
  bind-AnswerKeeps m (fail e) f h k = tt
  bind-AnswerKeeps m (ok t) f h k = then-AnswerKeeps m t.timer_map (f t) h (k t)

  pub bind-AnswerKeeps_pair :
      {B C : Type 0}
      → (m : List (Text × TimerData A)) (r : Result (B × Timer A))
        (f : B × Timer A → Result (C × Timer A))
      → AnswerKeeps m r
      → ((b : B) (t : Timer A) → AnswerKeeps t.timer_map (f (b, t)))
      → AnswerKeeps m (r >>= f)
  bind-AnswerKeeps_pair m (fail e) f h k = tt
  bind-AnswerKeeps_pair m (ok (b, t)) f h k = then-AnswerKeeps m t.timer_map (f (b, t)) h (k b t)

  pub same_keys : (m : List (Text × TimerData A)) → KeepsKeys m m
  same_keys m = (λ u. u, λ h. h)

  -- Pausing or resuming the outer timer, when there is one.
  pub outer_keeps :
      (b : Bool) (ids : List Text) (f : Text → Timer A → Result (Timer A)) (s : Timer A)
      → ((id : Text) → CallKeeps s.timer_map (f id s))
      → CallKeeps s.timer_map (if b then (top ids >>= (λ outer. f outer s)) else ok s)
  outer_keeps false ids f s h = same_keys s.timer_map
  outer_keeps true [] f s h = tt
  outer_keeps true (id ∷ ids) f s h = h id
