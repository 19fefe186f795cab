-- ===== src/History/Statistics/Bounds.antt =====
-- The loop over the packets of a host in src/grvy_timer.cpp finds the least and greatest times.
use mathlib.Core.Path.{subst}
use mathlib.Core.List.{append-nil, append_assoc}
use grvy.Base.{
  ℕ, ◌+◌, Bool, true, false, none, some, List, [], ◌∷◌, ◌++◌, length, length-append, ◌≡◌, ◌≢◌, sym,
  ap, ◌∙◌, inl, inr, if◌then◌else◌, arith, Bool-cases, Option-cases,
}
use grvy.Base.Map.{find, insert}
use grvy.Base.Map.Laws.{find-insert}
use grvy.Base.Int.{ℤ, ltb_ℤ}
use grvy.Base.Text.{Text, text_beq, text_key, text_beq_iff}
use grvy.Timer.Types.{Accumulators}
use grvy.History.Types.{Packet}
use grvy.History.Statistics.{
  MinMax, Statistics, no_statistics, value_at, better, greater, min_check, max_check, first_seen,
  add_packet, add_packets,
}
use grvy.History.Statistics.Extremes.{IsBest, IsBest-other, IsBest-same}

ltb_irreflexive : (t : ℤ) → ltb_ℤ t t ≡ false
ltb_irreflexive t = ground arith

ltb_keeps : (t v w : ℤ) → ltb_ℤ t v ≡ true → ltb_ℤ w v ≡ false → ltb_ℤ w t ≡ false
ltb_keeps t v w a b = ground (arith, a, b)

greater_keeps : (t v w : ℤ) → greater t v ≡ true → greater w v ≡ false → greater w t ≡ false
greater_keeps t v w a b = ground (arith, a, b)

-- The value of an experiment before a packet of it is looked at.
abbrev old_value : Text → List (Text × MinMax) → List (Text × MinMax) → MinMax
old_value e seen m = elim (find e seen) [ none ↦ none | some x ↦ value_at e m ]

value_at-first_seen :
    (e : Text) (seen m : List (Text × MinMax))
    → value_at e (first_seen e seen m) ≡ old_value e seen m
value_at-first_seen e seen m = ground (arith, find-insert e e none m, text_beq_iff e e)

value_at_other :
    (e e' : Text) (seen m : List (Text × MinMax))
    → text_beq e e' ≡ false
    → value_at e' (first_seen e seen m) ≡ value_at e' m
value_at_other e e' seen m ne = ground (arith, find-insert e e' none m, ne)

-- The value after the check, of the experiment and of another one.
value_at-check :
    (less : ℤ → ℤ → Bool) (e : Text) (t : ℤ) (i : ℕ) (x : MinMax) (m : List (Text × MinMax))
    → value_at e m ≡ x
    → value_at e (if better less t (value_at e m) then insert e (some (t, i)) m else m)
      ≡ (if better less t x then some (t, i) else x)
value_at-check less e t i x m h = elim (Bool-cases (better less t x)) [
  | inl b ↦ rw h (rw b (ground (arith, find-insert e e (some (t, i)) m, text_beq_iff e e)))
  | inr b ↦ rw h (rw b h)
]

value_at-check_other :
    (less : ℤ → ℤ → Bool) (e e' : Text) (t : ℤ) (i : ℕ) (m : List (Text × MinMax))
    → text_beq e e' ≡ false
    → value_at e' (if better less t (value_at e m) then insert e (some (t, i)) m else m)
      ≡ value_at e' m
value_at-check_other less e e' t i m ne = ground (arith, find-insert e e' (some (t, i)) m, ne)

module _ {A F : Type 0} (acc : Accumulators A) (output_comments output_env : Bool) where
  -- The values after some packets, for an experiment.
  abbrev pub Bounded : Text → List (Packet F) → Statistics A → Type 0
  Bounded e ps st =
      IsBest ltb_ℤ e ps (value_at e st.min_vals) × IsBest greater e ps (value_at e st.max_vals)

  -- Where the maps have no value yet, no packet is of the experiment.
  old_IsBest :
      (e : Text) (ps : List (Packet F)) (st : Statistics A)
      → Bounded e ps st
      → IsBest ltb_ℤ e ps (old_value e st.max_vals st.min_vals)
        × IsBest greater e ps (old_value e st.max_vals st.max_vals)
  old_IsBest e ps st (least, greatest) = elim (Option-cases (find e st.max_vals)) [
    | inr (x, known) ↦
        let min_is : value_at e st.min_vals ≡ old_value e st.max_vals st.min_vals =
          ground (arith, known) in
        let max_is : value_at e st.max_vals ≡ old_value e st.max_vals st.max_vals =
          ground (arith, known) in
        (
          subst (λ v. IsBest ltb_ℤ e ps v) min_is least,
          subst (λ v. IsBest greater e ps v) max_is greatest,
        )
    | inl fresh ↦
        let is_none : value_at e st.max_vals ≡ none = ground (arith, fresh) in
        let min_none : none ≡ old_value e st.max_vals st.min_vals = ground (arith, fresh) in
        let max_none : none ≡ old_value e st.max_vals st.max_vals = ground (arith, fresh) in
        let no_packet : IsBest greater e ps none =
          subst (λ v. IsBest greater e ps v) is_none greatest in
        (
          subst (λ v. IsBest ltb_ℤ e ps v) min_none no_packet,
          subst (λ v. IsBest greater e ps v) max_none no_packet,
        )
  ]

  add_packet-Bounded :
      (e : Text) (p : Packet F) (ps : List (Packet F)) (st : Statistics A)
      → Bounded e ps st
      → Bounded e (ps ++ p ∷ []) (add_packet acc output_comments output_env (length ps) p st)
  unfolding add_packet min_check max_check
  add_packet-Bounded e p ps st h =
      let own = p.experiment in
      let t = p.total_time in
      let n = length ps in
      let mins = first_seen own st.max_vals st.min_vals in
      let maxs = first_seen own st.max_vals st.max_vals in
      elim (Bool-cases (text_beq own e)) [
        | inl same ↦
            let own_e = (text_beq_iff own e).0 same in
            let (old_min, old_max) = old_IsBest e ps st h in
            let min_was : value_at own mins ≡ old_value e st.max_vals st.min_vals =
              value_at-first_seen own st.max_vals st.min_vals
              ∙ ap (λ k. old_value k st.max_vals st.min_vals) own_e in
            let max_was : value_at own maxs ≡ old_value e st.max_vals st.max_vals =
              value_at-first_seen own st.max_vals st.max_vals
              ∙ ap (λ k. old_value k st.max_vals st.max_vals) own_e in
            (
              subst (λ v. IsBest ltb_ℤ e (ps ++ p ∷ []) v)
                  (sym (
                      value_at-check ltb_ℤ own t n (old_value e st.max_vals st.min_vals) mins
                        min_was)
                    ∙ ap (λ k. value_at k (min_check own t n mins)) own_e)
                  (IsBest-same ltb_ℤ ltb_irreflexive ltb_keeps e ps p
                    (old_value e st.max_vals st.min_vals) own_e old_min),
              subst (λ v. IsBest greater e (ps ++ p ∷ []) v)
                  (sym (
                      value_at-check greater own t n (old_value e st.max_vals st.max_vals) maxs
                        max_was)
                    ∙ ap (λ k. value_at k (max_check own t n maxs)) own_e)
                  (IsBest-same greater ltb_irreflexive greater_keeps e ps p
                    (old_value e st.max_vals st.max_vals) own_e old_max),
            )
        | inr other ↦
            let ne : own ≢ e = λ q. ground (arith, other, (text_beq_iff own e).1 q) in
            (
              subst (λ v. IsBest ltb_ℤ e (ps ++ p ∷ []) v)
                  (sym (
                    value_at-check_other ltb_ℤ own e t n mins other
                    ∙ value_at_other own e st.max_vals st.min_vals other))
                  (IsBest-other ltb_ℤ ltb_irreflexive ltb_keeps e ps p (value_at e st.min_vals) ne
                    h.0),
              subst (λ v. IsBest greater e (ps ++ p ∷ []) v)
                  (sym (
                    value_at-check_other greater own e t n maxs other
                    ∙ value_at_other own e st.max_vals st.max_vals other))
                  (IsBest-other greater ltb_irreflexive greater_keeps e ps p
                    (value_at e st.max_vals) ne h.1),
            )
      ]

  add_packets_after :
      (e : Text) (ps done : List (Packet F)) (st : Statistics A)
      → Bounded e done st
      → Bounded e (done ++ ps) (add_packets acc output_comments output_env (length done) ps st)
  unfolding add_packets
  add_packets_after e [] done st h = subst (λ l. Bounded e l st) (sym (append-nil done)) h
  add_packets_after e (p ∷ ps) done st h =
      let next = add_packet acc output_comments output_env (length done) p st in
      let run : Bounded e ((done ++ p ∷ []) ++ ps)
          (add_packets acc output_comments output_env (length (done ++ p ∷ [])) ps next) =
        add_packets_after e ps (done ++ p ∷ []) next (add_packet-Bounded e p done st h) in
      subst
        (λ l. Bounded e l (add_packets acc output_comments output_env (length done + 1) ps next))
        (append_assoc done (p ∷ []) ps)
        (subst
          (λ n.
            Bounded e ((done ++ p ∷ []) ++ ps)
              (add_packets acc output_comments output_env n ps next))
          (length-append done (p ∷ [])) run)

  -- After the loop over the packets of a host, the minimum of an experiment is the time of one of its
  -- packets, at the index that is kept with it, and no packet of the experiment has a smaller one; the
  -- maximum likewise; and an experiment without a packet has neither.
  pub add_packets-IsBest :
      (ps : List (Packet F)) (e : Text)
      → let st = add_packets acc output_comments output_env 0 ps no_statistics in
        IsBest ltb_ℤ e ps (value_at e st.min_vals) × IsBest greater e ps (value_at e st.max_vals)
  unfolding find
  add_packets-IsBest ps e =
      add_packets_after e ps [] no_statistics
        ((λ v j (p, h, he, hv). ground (arith, h)), λ v j (p, h, he, hv). ground (arith, h))
