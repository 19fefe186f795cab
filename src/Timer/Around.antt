-- ===== src/Timer/Around.antt =====
-- The timers around a region and elsewhere, in src/grvy_timer.cpp.
use mathlib.Core.Option
use grvy.Base.{ℕ, ◌+◌, some, List, ◌≡◌, ◌≢◌, sym, if◌then◌else◌, arith}
use grvy.Base.Map.{find, modify}
use grvy.Base.Map.Laws.{find-modify}
use grvy.Base.Int.{ℤ, ◌+ℤ◌, ◌-ℤ◌, int_laws}
use grvy.Base.Text.{Text, text_beq, text_key, text_beq_iff}
use grvy.Timer.Types.{Accumulators, TimerData}
use grvy.Timer.Data.{start_entry, end_data}
use grvy.Timer.Regions.{Regions, enter, Foreign, stops}
use grvy.Timer.Steps.{started, find-start_entry}

-- The timer around the regions stood still for the time t, and the timers that are in none of the
-- regions are as before.
pub record Ran {A : Type 0} (outer : Text) (regions : Regions) (d : TimerData A)
    (m m' : List (Text × TimerData A)) (t : ℤ) : Type 0 where
  pub outer_data : TimerData A
  pub outer_found : find outer m' ≡ some outer_data
  pub outer_kept :
      outer_data
      ≡ record d { accumulated = outer_data.accumulated; timings_1 = outer_data.timings_1 }
  pub outer_credit :
      outer_data.accumulated -ℤ outer_data.timings_1 ≡ (d.accumulated -ℤ d.timings_1) -ℤ t
  pub elsewhere : (j : Text) → j ≢ outer → Foreign j regions → find j m' ≡ find j m

module _ {A : Type 0} (acc : Accumulators A) (clock : ℕ → ℤ) where
  abbrev pub paused : ℕ → TimerData A → TimerData A
  paused k d = record d { accumulated = d.accumulated +ℤ (clock (k + 1) -ℤ d.timings_1) }

  abbrev pub resumed : ℕ → TimerData A → TimerData A
  resumed k d = record d { timings_1 = clock (k + 1) }

  abbrev pub map_begun : Text → Text → ℕ → List (Text × TimerData A) → List (Text × TimerData A)
  map_begun id outer k m = start_entry acc id (clock k) (modify outer (paused k) m)

  abbrev pub map_ended : Text → Text → ℕ → List (Text × TimerData A) → List (Text × TimerData A)
  map_ended id outer k m = modify outer (resumed k) (modify id (end_data acc (clock k)) m)

  pub find-map_begun :
      (id outer j : Text) (k : ℕ) (m : List (Text × TimerData A))
      → id ≢ outer
      → find j (map_begun id outer k m) ≡ (
          if text_beq id j
          then some (started acc (clock k) (find id m))
          else if text_beq outer j
          then Option.map (paused k) (find j m)
          else find j m)
  find-map_begun id outer j k m h = ground (
    arith,
    text_beq_iff id j,
    text_beq_iff outer j,
    text_beq_iff outer id,
    find-start_entry acc id j (clock k) (modify outer (paused k) m),
    find-modify outer j (paused k) m,
    find-modify outer id (paused k) m,
  )

  pub find-map_ended :
      (id outer j : Text) (k : ℕ) (m : List (Text × TimerData A))
      → id ≢ outer
      → find j (map_ended id outer k m) ≡ (
          if text_beq id j
          then Option.map (end_data acc (clock k)) (find j m)
          else if text_beq outer j
          then Option.map (resumed k) (find j m)
          else find j m)
  find-map_ended id outer j k m h = ground (
    arith,
    text_beq_iff id j,
    text_beq_iff outer j,
    find-modify outer j (resumed k) (modify id (end_data acc (clock k)) m),
    find-modify id j (end_data acc (clock k)) m,
  )

  pub stop_at :
      (k c : ℕ) (next : Regions)
      → (clock (k + 3 + c) -ℤ clock (k + 1)) +ℤ stops clock next (k + (4 + c))
        ≡ (clock (k + 2 + c + 1) -ℤ clock (k + 1)) +ℤ stops clock next (k + 2 + c + 2)
  stop_at k c next =
      let end_reading : k + 3 + c ≡ k + 2 + c + 1 = omega arith in
      let next_reading : k + (4 + c) ≡ k + 2 + c + 2 = omega arith in cc

  -- The timer around a region, after it.
  pub around-Ran :
      (id outer : Text) (inner rest : Regions) (k e : ℕ) (d : TimerData A)
      (m m2 m4 : List (Text × TimerData A)) (t u v : ℤ)
      → outer ≢ id
      → Foreign outer inner
      → find outer m ≡ some d
      → Ran id inner (started acc (clock k) (find id m)) (map_begun id outer k m) m2 t
      → Ran outer rest (resumed e (paused k d)) (map_ended id outer e m2) m4 u
      → v ≡ (clock (e + 1) -ℤ clock (k + 1)) +ℤ u
      → Ran outer (enter id inner rest) d m m4 v
  around-Ran id outer inner rest k e d m m2 m4 t u v h f hd r w hv = record {
    outer_data = w.outer_data;
    outer_found = w.outer_found;
    outer_kept = w.outer_kept;
    outer_credit = grind (int_laws, w.outer_credit);
    elsewhere = λ j g p. ground (
      arith,
      w.elsewhere j g p.2,
      text_beq_iff id j,
      text_beq_iff outer j,
      find-map_ended id outer j e m2 (λ q. h (sym q)),
      find-map_begun id outer j k m (λ q. h (sym q)),
      r.elsewhere j p.0 p.1,
    );
  }

  pub id-begun :
      (id outer : Text) (k : ℕ) (m : List (Text × TimerData A))
      → outer ≢ id
      → find id (map_begun id outer k m) ≡ some (started acc (clock k) (find id m))
  id-begun id outer k m h =
      ground (arith, text_beq_iff id id, find-map_begun id outer id k m (λ q. h (sym q)))

  pub around-begun :
      (id outer : Text) (inner : Regions) (k : ℕ) (d b : TimerData A)
      (m m2 : List (Text × TimerData A)) (t : ℤ)
      → find outer m ≡ some d
      → outer ≢ id
      → Foreign outer inner
      → Ran id inner b (map_begun id outer k m) m2 t
      → find outer m2 ≡ some (paused k d)
  around-begun id outer inner k d b m m2 t hd h f r = ground (
    arith,
    hd,
    text_beq_iff id outer,
    text_beq_iff outer outer,
    r.elsewhere outer h f,
    find-map_begun id outer outer k m (λ q. h (sym q)),
  )

  pub around-ended :
      (id outer : Text) (e : ℕ) (d : TimerData A) (m : List (Text × TimerData A))
      → find outer m ≡ some d
      → outer ≢ id
      → find outer (map_ended id outer e m) ≡ some (resumed e d)
  around-ended id outer e d m hd h = ground (
    arith,
    hd,
    text_beq_iff id outer,
    text_beq_iff outer outer,
    find-map_ended id outer outer e m (λ q. h (sym q)),
  )
