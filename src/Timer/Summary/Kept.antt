-- ===== src/Timer/Summary/Kept.antt =====
-- What Summarize of src/grvy_timer.cpp reports, and that it leaves the timers as they were.
use grvy.Base.{
  ℕ, true, false, none, some, List, [], ◌∷◌, ◌≡◌, refl, sym, ap, ◌∙◌, ok, arith, Bool-cases, inl,
  inr,
}
use grvy.Base.Map.{find, modify}
use grvy.Base.Map.Laws.{find-modify}
use grvy.Base.Int.{int_key, ℤ, pos, ◌+ℤ◌, ◌-ℤ◌, int_laws}
use grvy.Base.Text.{Text, text_beq, text_key, text_beq_iff}
use grvy.Timer.Types.{Accumulators, TimerData, Timer}
use grvy.Timer.Calls.{gtimer}
use grvy.Timer.Summary.{insert_row, sort_timers, sub_time, Report, small_times, report, summarize}
use grvy.Timer.Summary.Order.{
  Descending, sum_rows, times_of, Distinct, last_with, find-sort_timers, sort_timers-Descending,
  sort_timers_complete,
}

taken_back : (t u : ℤ) → (t -ℤ u) +ℤ u ≡ t
taken_back t u = grind int_laws

put_together : (t u : ℤ) → u +ℤ (t -ℤ u) ≡ t
put_together t u = grind int_laws

module _ {A : Type 0} where
  -- The global timer's own data do not matter to the rows.
  sort_timers-modify :
      (f : TimerData A → TimerData A) (m : List (Text × TimerData A)) (rows : List (ℤ × Text))
      → sort_timers (modify gtimer f m) rows ≡ sort_timers m rows
  unfolding sort_timers modify
  sort_timers-modify f [] rows = refl
  sort_timers-modify f ((id, d) ∷ m) rows = elim (Bool-cases (text_beq id gtimer)) [
    | inl e ↦ ground (arith, e)
    | inr e ↦ ground (arith, e, sort_timers-modify f m (insert_row d.timings_0 id rows))
  ]

  restored :
      (m : List (Text × TimerData A)) (d : TimerData A) (t : ℤ) (j : Text)
      → find gtimer m ≡ some d
      → find j (
          modify gtimer
            (λ e. record e { timings_0 = e.timings_0 +ℤ t })
            (modify gtimer (λ e. record e { timings_0 = d.timings_0 -ℤ t }) m))
        ≡ find j m
  restored m d t j h =
      let back = taken_back d.timings_0 t in
      elim (Bool-cases (text_beq gtimer j)) [
        | inl e ↦
            let same : gtimer ≡ j = (text_beq_iff gtimer j).0 e in
            let found : find j m ≡ some d = ap (λ x. find x m) (sym same) ∙ h in
            ground (
              arith,
              e,
              found,
              back,
              find-modify gtimer j (λ e. record e { timings_0 = e.timings_0 +ℤ t })
                  (modify gtimer (λ e. record e { timings_0 = d.timings_0 -ℤ t }) m),
              find-modify gtimer j (λ e. record e { timings_0 = d.timings_0 -ℤ t }) m,
            )
        | inr e ↦ ground (
          arith,
          e,
          find-modify gtimer j (λ e. record e { timings_0 = e.timings_0 +ℤ t })
              (modify gtimer (λ e. record e { timings_0 = d.timings_0 -ℤ t }) m),
          find-modify gtimer j (λ e. record e { timings_0 = d.timings_0 -ℤ t }) m,
        )
      ]

one_short : (t d : ℤ) → ((t +ℤ pos 0) +ℤ (d -ℤ (t +ℤ (t +ℤ pos 0)))) +ℤ t ≡ d
one_short t d = grind int_laws

first_found :
    {A : Type 0} (a b : Text) (d x y : TimerData A)
    → find gtimer ((gtimer, d) ∷ (a, x) ∷ (b, y) ∷ []) ≡ some d
unfolding find
first_found a b d x y = ground (arith, text_beq_iff gtimer gtimer)

module _ {A : Type 0} (acc : Accumulators A) (clock : ℕ → ℤ) where
  -- After a Finalize, the rows of the report go from the longest exclusive time down, and have for each
  -- time the name of the last timer but the global one with that time, and no other row. When no two
  -- timers have the same time, the times and the rest of the global timer add up to its total. All
  -- timers are afterwards as they were.
  pub summarize_lem :
      (s : Timer A) (d : TimerData A)
      → s.finalized ≡ true
      → find gtimer s.timer_map ≡ some d
      → (r : Report) × (s' : Timer A) × (summarize acc clock s ≡ ok (r, s'))
        × Descending r.rows
        × ((t : ℤ) → find t r.rows ≡ last_with t s.timer_map none)
        × (Distinct (times_of s.timer_map) → sum_rows r.rows +ℤ r.rest ≡ r.total)
        × (r.total ≡ d.timings_0)
        × ((j : Text) → find j s'.timer_map ≡ find j s.timer_map)
  unfolding summarize report find
  summarize_lem s d fin h =
      let m = s.timer_map in
      let t = sub_time m in
      let during = modify gtimer (λ e. record e { timings_0 = d.timings_0 -ℤ t }) m in
      let after = modify gtimer (λ e. record e { timings_0 = e.timings_0 +ℤ t }) during in
      (
        record {
          rows = sort_timers during [];
          rest = d.timings_0 -ℤ t;
          total = d.timings_0;
          inaccurate = small_times acc clock after;
        },
        record s { timer_map = after },
        ground (arith, fin, h),
        sort_timers-Descending during [] tt,
        λ u.
            ap (find u) (sort_timers-modify (λ e. record e { timings_0 = d.timings_0 -ℤ t }) m [])
            ∙ find-sort_timers u m [],
        λ u.
            ap (λ x. x +ℤ (d.timings_0 -ℤ t))
              (ap sum_rows
                  (sort_timers-modify (λ e. record e { timings_0 = d.timings_0 -ℤ t }) m [])
                ∙ sort_timers_complete m u)
            ∙ put_together d.timings_0 t,
        refl,
        λ j. restored m d t j h,
      )

  two_rows :
      (a b : Text) (d x y : TimerData A)
      → text_beq a gtimer ≡ false
      → text_beq b gtimer ≡ false
      → x.timings_0 ≡ y.timings_0
      → (sort_timers ((gtimer, d) ∷ (a, x) ∷ (b, y) ∷ []) [] ≡ (x.timings_0, b) ∷ [])
        × (sub_time ((gtimer, d) ∷ (a, x) ∷ (b, y) ∷ []) ≡ x.timings_0 +ℤ (x.timings_0 +ℤ pos 0))
  unfolding sort_timers sub_time insert_row
  two_rows a b d x y ha hb ht =
      let own = text_beq_iff gtimer gtimer in
      (ground (arith, ha, hb, ht, own), ground (arith, ha, hb, ht, own))

  -- After a Finalize, of two timers with the same exclusive time only the second is listed, and what is listed falls
  -- short of the total by that time.
  pub summarize_loses :
      (s : Timer A) (a b : Text) (d x y : TimerData A)
      → s.finalized ≡ true
      → s.timer_map ≡ (gtimer, d) ∷ (a, x) ∷ (b, y) ∷ []
      → text_beq a gtimer ≡ false
      → text_beq b gtimer ≡ false
      → x.timings_0 ≡ y.timings_0
      → (r : Report) × (s' : Timer A) × (summarize acc clock s ≡ ok (r, s'))
        × (r.rows ≡ (x.timings_0, b) ∷ [])
        × ((sum_rows r.rows +ℤ r.rest) +ℤ x.timings_0 ≡ r.total)
  unfolding summarize report
  summarize_loses s a b d x y fin e ha hb ht =
      let m = s.timer_map in
      let t = sub_time m in
      let during = modify gtimer (λ e. record e { timings_0 = d.timings_0 -ℤ t }) m in
      let after = modify gtimer (λ e. record e { timings_0 = e.timings_0 +ℤ t }) during in
      let (rows, sum) = two_rows a b d x y ha hb ht in
      let listed : sort_timers during [] ≡ (x.timings_0, b) ∷ [] =
        sort_timers-modify (λ e. record e { timings_0 = d.timings_0 -ℤ t }) m []
        ∙ ap (λ n. sort_timers n []) e
        ∙ rows in
      let times : t ≡ x.timings_0 +ℤ (x.timings_0 +ℤ pos 0) = ap sub_time e ∙ sum in
      (
        record {
          rows = sort_timers during [];
          rest = d.timings_0 -ℤ t;
          total = d.timings_0;
          inaccurate = small_times acc clock after;
        },
        record s { timer_map = after },
        ground (arith, fin, first_found a b d x y, e),
        listed,
        ap (λ n. (sum_rows n +ℤ (d.timings_0 -ℤ t)) +ℤ x.timings_0) listed
            ∙ ap (λ u. ((x.timings_0 +ℤ pos 0) +ℤ (d.timings_0 -ℤ u)) +ℤ x.timings_0) times
            ∙ one_short x.timings_0 d.timings_0,
      )
