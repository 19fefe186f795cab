-- ===== src/Timer/Nesting.antt =====
-- What nested regions leave in the timers of src/grvy_timer.cpp.
use grvy.Base.{ℕ, suc, ◌+◌, ◌≤◌, some, List, ◌∷◌, length, ◌≡◌, refl, ap, ◌∙◌, ok, arith}
use grvy.Base.Map.{find}
use grvy.Base.Int.{ℤ, int_laws}
use grvy.Base.Text.{Text, text_key}
use grvy.Timer.Types.{Accumulators, TimerData, Timer}
use grvy.Timer.Regions.{Regions, leave, enter, Foreign, IsPlain, Proper, num_readings, run, stops}
use grvy.Timer.Steps.{at, started, nested_begin, nested_end}
use grvy.Timer.Around.{
  Ran, map_begun, map_ended, resumed, paused, stop_at, around-Ran, id-begun, around-begun,
  around-ended,
}

module _ {A : Type 0} (acc : Accumulators A) (clock : ℕ → ℤ) where
  -- The state after the regions, of which only the map is not known in advance.
  abbrev pub Leaves :
      Regions
      → Timer A
      → ℕ
      → Text
      → List Text
      → TimerData A
      → List (Text × TimerData A)
      → ℕ
      → Type 0
  Leaves regions s n outer rest d m k =
      (m' : List (Text × TimerData A)) × (run acc clock regions (at s n (outer ∷ rest) m k)
        ≡ ok (at s n (outer ∷ rest) m' (k + num_readings regions)))
      × Ran outer regions d m m' (stops clock regions k)

  -- What follows a region in the program runs from its end.
  pub region-run :
      (id outer : Text) (inner next : Regions) (s : Timer A) (n : ℕ) (rest : List Text)
      (d b : TimerData A) (m m2 : List (Text × TimerData A)) (k e : ℕ)
      → 2 ≤ n
      → n ≡ suc (length rest)
      → find outer m ≡ some d
      → IsPlain id
      → run acc clock inner
          (at s (n + 1) (id ∷ outer ∷ rest) (map_begun acc clock id outer k m) (k + 2))
        ≡ ok (at s (n + 1) (id ∷ outer ∷ rest) m2 e)
      → find id m2 ≡ some b
      → find outer m2 ≡ some (paused acc clock k d)
      → run acc clock (enter id inner next) (at s n (outer ∷ rest) m k)
        ≡ run acc clock next (at s n (outer ∷ rest) (map_ended acc clock id outer e m2) (e + 2))
  region-run id outer inner next s n rest d b m m2 k e hn hl hd p run2 hb h2 =
      rw
        (
          nested_begin acc clock id outer s n rest m k d hn hl hd,
          run2,
          nested_end acc clock id outer s n rest m2 e b (paused acc clock k d) hn hb h2 p,
        )
        refl

  pub run-Ran :
      (regions : Regions) (s : Timer A) (n : ℕ) (outer : Text) (rest : List Text) (d : TimerData A)
      (m : List (Text × TimerData A)) (k : ℕ)
      → 2 ≤ n
      → n ≡ suc (length rest)
      → find outer m ≡ some d
      → Foreign outer regions
      → Proper regions
      → Leaves regions s n outer rest d m k
  run-Ran leave s n outer rest d m k hn hl hd f p = (
    m,
    ap (λ i. ok (at s n (outer ∷ rest) m i)) (omega arith),
    record {
      outer_data = d;
      outer_found = hd;
      outer_kept = refl;
      outer_credit = grind int_laws;
      elsewhere = λ j g q. refl;
    },
  )
  run-Ran (enter id inner next) s n outer rest d m k hn hl hd f p =
      let b = started acc (clock k) (find id m) in
      let e = k + 2 + num_readings inner in
      let t = stops clock inner (k + 2) in
      let (m2, run2, ran2) =
        run-Ran inner s (n + 1) id (outer ∷ rest) b (map_begun acc clock id outer k m) (k + 2)
          (omega arith) (omega arith) (id-begun acc clock id outer k m f.0) p.1 p.2 in
      let h2 = around-begun acc clock id outer inner k d b m m2 t hd f.0 f.1 ran2 in
      let (m4, run4, ran4) =
        run-Ran next s n outer rest (resumed acc clock e (paused acc clock k d))
          (map_ended acc clock id outer e m2) (e + 2) hn hl
          (around-ended acc clock id outer e (paused acc clock k d) m2 h2 f.0) f.2 p.3 in
      (
        m4,
        region-run id outer inner next s n rest d ran2.outer_data m m2 k e hn hl hd p.0 run2
              ran2.outer_found h2
            ∙ run4
            ∙ ap (λ i. ok (at s n (outer ∷ rest) m4 i)) (omega arith),
        around-Ran acc clock id outer inner next k e d m m2 m4 t (stops clock next (e + 2)) _ f.0
            f.1 hd ran2 ran4 (stop_at acc clock k (num_readings inner) next),
      )
