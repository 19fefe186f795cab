-- ===== src/Timer/Steps.antt =====
-- What one call of BeginTimer and EndTimer in src/grvy_timer.cpp does within a region.
use grvy.Base.{
  ℕ, suc, ◌+◌, ◌≤◌, Option, none, some, List, [], ◌∷◌, length, ◌≡◌, refl, if◌then◌else◌, ok, arith,
}
use grvy.Base.Map.{find, modify}
use grvy.Base.Map.Laws.{find-insert, find-modify}
use grvy.Base.Int.{ℤ, pos, ◌+ℤ◌, ◌-ℤ◌}
use grvy.Base.Text.{Text, text_beq, text_key, text_beq_iff}
use grvy.Timer.Types.{Accumulators, TimerData, Timer}
use grvy.Timer.Data.{first_begin, next_begin, start_entry, end_data}
use grvy.Timer.Calls.{
  exceeds_size, pause_timer, resume_timer, begin_timer, end_found, end_branches, end_timer,
}
use grvy.Timer.Regions.{IsPlain}

-- A state given by what the timers change.
abbrev pub at : {A : Type 0} → Timer A → ℕ → List Text → List (Text × TimerData A) → ℕ → Timer A
at s n ids m k = record s { num_begins = pos n; callgraph = ids; timer_map = m; readings = k }

pub at_self :
    {A : Type 0} (s : Timer A) (n : ℕ) (ids : List Text)
    → s.num_begins ≡ pos n
    → s.callgraph ≡ ids
    → at s n ids s.timer_map s.readings ≡ s
at_self s n ids en ec = cc

module _ {A : Type 0} (acc : Accumulators A) where
  -- The timer that a region starts from.
  abbrev pub started : ℤ → Option (TimerData A) → TimerData A
  started t none = first_begin acc t
  started t (some d) = next_begin acc t d

  pub find-start_entry :
      (id j : Text) (t : ℤ) (m : List (Text × TimerData A))
      → find j (start_entry acc id t m)
        ≡ (if text_beq id j then some (started t (find id m)) else find j m)
  unfolding start_entry
  find-start_entry id j t m = ground (
    arith,
    text_beq_iff id j,
    find-insert id j (first_begin acc t) m,
    find-modify id j (next_begin acc t) m,
  )

module _ {A : Type 0} (acc : Accumulators A) (clock : ℕ → ℤ) where
  pub nested_begin :
      (id outer : Text) (s : Timer A) (n : ℕ) (rest : List Text) (m : List (Text × TimerData A))
      (k : ℕ) (d : TimerData A)
      → 2 ≤ n
      → n ≡ suc (length rest)
      → find outer m ≡ some d
      → begin_timer acc clock id (at s n (outer ∷ rest) m k)
        ≡ ok (
            at s
              (n + 1)
              (id ∷ outer ∷ rest)
              (start_entry acc id (clock k) (
                modify outer
                  (λ d. record d { accumulated = d.accumulated +ℤ (clock (k + 1) -ℤ d.timings_1) })
                  m))
              (k + 2))
  unfolding begin_timer pause_timer exceeds_size ◌+ℤ◌
  nested_begin id outer s n rest m k d hn hl hd = ground (arith, hd)

  pub nested_end :
      (id outer : Text) (s : Timer A) (n : ℕ) (rest : List Text) (m : List (Text × TimerData A))
      (k : ℕ) (e d : TimerData A)
      → 2 ≤ n
      → find id m ≡ some e
      → find outer m ≡ some d
      → IsPlain id
      → end_timer acc clock id (at s (n + 1) (id ∷ outer ∷ rest) m k)
        ≡ ok (
            at s n
              (outer ∷ rest)
              (modify outer
                (λ d. record d { timings_1 = clock (k + 1) })
                (modify id (end_data acc (clock k)) m))
              (k + 2))
  unfolding end_timer end_branches end_found resume_timer ◌-ℤ◌
  nested_end id outer s n rest m k e d hn he hd hp =
      ground (arith, he, hd, find-modify id outer (end_data acc (clock k)) m)

  -- In a region with only the global timer around it, no timer is paused.
  pub outermost_begin :
      (id g : Text) (s : Timer A) (m : List (Text × TimerData A)) (k : ℕ)
      → begin_timer acc clock id (at s 1 (g ∷ []) m k)
        ≡ ok (at s 2 (id ∷ g ∷ []) (start_entry acc id (clock k) m) (k + 1))
  unfolding begin_timer exceeds_size ◌+ℤ◌
  outermost_begin id g s m k = refl

  pub outermost_end :
      (id g : Text) (s : Timer A) (m : List (Text × TimerData A)) (k : ℕ) (e : TimerData A)
      → find id m ≡ some e
      → IsPlain id
      → end_timer acc clock id (at s 2 (id ∷ g ∷ []) m k)
        ≡ ok (at s 1 (g ∷ []) (modify id (end_data acc (clock k)) m) (k + 1))
  unfolding end_timer end_branches end_found ◌-ℤ◌
  outermost_end id g s m k e he hp = ground (arith, he)
