-- ===== src/Timer/Summary/Order.antt =====
-- The rows that Summarize of src/grvy_timer.cpp sorts.
use mathlib.Core.Path.{subst}
use grvy.Base.Map.{find}
use grvy.Base.{
  Option, some, false, true, List, [], ◌∷◌, All, ◌≡◌, ◌≢◌, refl, ap, ◌∙◌, inl, inr, if◌then◌else◌,
  arith, Bool-cases,
}
use grvy.Base.Int.{beq_ℤ, beq_ℤ_iff, int_key, ℤ, pos, ◌+ℤ◌, ltb_ℤ, int_laws, eq_of_parts}
use grvy.Base.Text.{Text, text_beq}
use grvy.Timer.Types.{TimerData}
use grvy.Timer.Calls.{gtimer}
use grvy.Timer.Summary.{insert_row, sort_timers, sub_time}

-- The times go down strictly.
abbrev pub Descending : List (ℤ × Text) → Type 0
Descending [] = Unit
Descending ((t, n) ∷ rows) = All (λ r. ltb_ℤ r.0 t ≡ true) rows × Descending rows

abbrev pub sum_rows : List (ℤ × Text) → ℤ
sum_rows [] = pos 0
sum_rows ((t, n) ∷ rows) = t +ℤ sum_rows rows

-- No row has the time.
abbrev pub Fresh : ℤ → List (ℤ × Text) → Type 0
Fresh t rows = All (λ r. r.0 ≢ t) rows

All-insert_row :
    (P : ℤ → Type 0) (t : ℤ) (n : Text) (rows : List (ℤ × Text))
    → P t
    → All (λ r. P r.0) rows
    → All (λ r. P r.0) (insert_row t n rows)
unfolding insert_row
All-insert_row P t n [] p a = (p, tt)
All-insert_row P t n ((u, m) ∷ rows) p (b, a) = elim (Bool-cases (ltb_ℤ u t)) [
  | inl e ↦ rw e (p, (b, a))
  | inr e ↦ elim (Bool-cases (ltb_ℤ t u)) [
    | inl q ↦ rw (e, q) (b, All-insert_row P t n rows p a)
    | inr q ↦ rw (e, q) (b, a)
  ]
]

below_trans :
    (u t : ℤ) (rows : List (ℤ × Text))
    → ltb_ℤ u t ≡ true
    → All (λ r. ltb_ℤ r.0 u ≡ true) rows
    → All (λ r. ltb_ℤ r.0 t ≡ true) rows
below_trans u t [] e a = tt
below_trans u t ((v, n) ∷ rows) e (b, a) = (ground (arith, e, b), below_trans u t rows e a)

insert_row-Descending :
    (t : ℤ) (n : Text) (rows : List (ℤ × Text)) → Descending rows → Descending (insert_row t n rows)
unfolding insert_row
insert_row-Descending t n [] d = (tt, tt)
insert_row-Descending t n ((u, m) ∷ rows) (b, d) = elim (Bool-cases (ltb_ℤ u t)) [
  | inl e ↦ rw e ((e, below_trans u t rows e b), (b, d))
  | inr e ↦ elim (Bool-cases (ltb_ℤ t u)) [
    | inl q ↦
        rw (e, q)
          (All-insert_row (λ x. ltb_ℤ x u ≡ true) t n rows q b, insert_row-Descending t n rows d)
    | inr q ↦ rw (e, q) (b, d)
  ]
]

swap_sums : (t u r : ℤ) → u +ℤ (t +ℤ r) ≡ t +ℤ (u +ℤ r)
swap_sums t u r = grind int_laws

insert_row-sum :
    (t : ℤ) (n : Text) (rows : List (ℤ × Text))
    → Fresh t rows
    → sum_rows (insert_row t n rows) ≡ t +ℤ sum_rows rows
unfolding insert_row
insert_row-sum t n [] f = refl
insert_row-sum t n ((u, m) ∷ rows) (h, f) =
    let same = eq_of_parts u t in
    let rest = insert_row-sum t n rows f in
    let swapped = swap_sums t u (sum_rows rows) in ground (arith, h, same, rest, swapped)

-- No two of the times are equal.
abbrev pub Distinct : List ℤ → Type 0
Distinct [] = Unit
Distinct (t ∷ ts) = All (λ u. t ≢ u) ts × Distinct ts

Fresh-after :
    (t : ℤ) (n : Text) (rows : List (ℤ × Text)) (ts : List ℤ)
    → All (λ u. t ≢ u) ts
    → All (λ u. Fresh u rows) ts
    → All (λ u. Fresh u (insert_row t n rows)) ts
Fresh-after t n rows [] a f = tt
Fresh-after t n rows (u ∷ ts) (h, a) (g, f) =
    (All-insert_row (λ x. x ≢ u) t n rows h g, Fresh-after t n rows ts a f)

plus_zero : (x : ℤ) → x +ℤ pos 0 ≡ x
plus_zero x = grind int_laws

zero_sum : (x : ℤ) → x ≡ pos 0 +ℤ x
zero_sum x = grind int_laws

sum_assoc : (t x r : ℤ) → x +ℤ (t +ℤ r) ≡ (t +ℤ x) +ℤ r
sum_assoc t x r = grind int_laws

Fresh-in_none : (ts : List ℤ) → All (λ u. Fresh u []) ts
Fresh-in_none [] = tt
Fresh-in_none (t ∷ ts) = (tt, Fresh-in_none ts)

-- The rows are a map from times to names.
find-insert_row :
    (u t : ℤ) (n : Text) (rows : List (ℤ × Text))
    → find u (insert_row t n rows) ≡ (if beq_ℤ t u then some n else find u rows)
unfolding insert_row find
find-insert_row u t n [] = ground arith
find-insert_row u t n ((v, m) ∷ rows) =
    let later = find-insert_row u t n rows in
    elim (Bool-cases (ltb_ℤ v t)) [
      | inl e ↦ ground (arith, e)
      | inr e ↦ elim (Bool-cases (ltb_ℤ t v)) [
        | inl q ↦
            let apart : beq_ℤ t v ≡ false = ground (arith, q, beq_ℤ_iff t v) in
            ground (arith, e, q, later, beq_ℤ_iff t u, beq_ℤ_iff v u, apart, beq_ℤ_iff t v)
        | inr q ↦
            let same : t ≡ v = eq_of_parts t v (ground (arith, e, q)) in ground (arith, e, q, same)
      ]
    ]

module _ {A : Type 0} where
  -- The last timer, but the global one, that has a time; or what was there before.
  abbrev pub last_with : ℤ → List (Text × TimerData A) → Option Text → Option Text
  last_with u [] x = x
  last_with u ((id, d) ∷ m) x =
      last_with u m (if text_beq id gtimer then x else if beq_ℤ d.timings_0 u then some id else x)

  pub find-sort_timers :
      (u : ℤ) (m : List (Text × TimerData A)) (rows : List (ℤ × Text))
      → find u (sort_timers m rows) ≡ last_with u m (find u rows)
  unfolding sort_timers
  find-sort_timers u [] rows = refl
  find-sort_timers u ((id, d) ∷ m) rows = elim (Bool-cases (text_beq id gtimer)) [
    | inl e ↦ rw e (find-sort_timers u m rows)
    | inr e ↦ rw e (
        find-sort_timers u m (insert_row d.timings_0 id rows)
        ∙ ap (last_with u m) (find-insert_row u d.timings_0 id rows))
  ]

  -- The exclusive times of the timers that are listed.
  abbrev pub times_of : List (Text × TimerData A) → List ℤ
  times_of [] = []
  times_of ((id, d) ∷ m) =
      let rest = times_of m in if text_beq id gtimer then rest else d.timings_0 ∷ rest

  pub sort_timers-Descending :
      (m : List (Text × TimerData A)) (rows : List (ℤ × Text))
      → Descending rows
      → Descending (sort_timers m rows)
  unfolding sort_timers
  sort_timers-Descending [] rows d = d
  sort_timers-Descending ((id, t) ∷ m) rows d = elim (Bool-cases (text_beq id gtimer)) [
    | inl e ↦ rw e (sort_timers-Descending m rows d)
    | inr e ↦ rw e (
        sort_timers-Descending m (insert_row t.timings_0 id rows)
          (insert_row-Descending t.timings_0 id rows d))
  ]

  sort_timers-sum :
      (m : List (Text × TimerData A)) (rows : List (ℤ × Text))
      → Distinct (times_of m)
      → All (λ t. Fresh t rows) (times_of m)
      → sum_rows (sort_timers m rows) ≡ sub_time m +ℤ sum_rows rows
  unfolding sort_timers sub_time
  sort_timers-sum [] rows d f = zero_sum (sum_rows rows)
  sort_timers-sum ((id, t) ∷ m) rows d f = elim (Bool-cases (text_beq id gtimer)) [
    | inl e ↦ rw e (
        sort_timers-sum m rows
          (subst (λ b. Distinct (if b then times_of m else t.timings_0 ∷ times_of m)) e d)
          (subst (λ b. All (λ u. Fresh u rows) (if b then times_of m else t.timings_0 ∷ times_of m))
            e f))
    | inr e ↦
        let (apart, d') =
          subst (λ b. Distinct (if b then times_of m else t.timings_0 ∷ times_of m)) e d in
        let (fresh, f') =
          subst (λ b. All (λ u. Fresh u rows) (if b then times_of m else t.timings_0 ∷ times_of m))
            e f in
        rw e (
          sort_timers-sum m (insert_row t.timings_0 id rows) d'
            (Fresh-after t.timings_0 id rows (times_of m) apart f')
          ∙ ap (λ x. sub_time m +ℤ x) (insert_row-sum t.timings_0 id rows fresh)
          ∙ sum_assoc t.timings_0 (sub_time m) (sum_rows rows))
  ]

  -- When no two timers have the same exclusive time, the rows' times add up to the sum over the
  -- timers.
  pub sort_timers_complete :
      (m : List (Text × TimerData A))
      → Distinct (times_of m)
      → sum_rows (sort_timers m []) ≡ sub_time m
  sort_timers_complete m d =
      sort_timers-sum m [] d (Fresh-in_none (times_of m)) ∙ plus_zero (sub_time m)
