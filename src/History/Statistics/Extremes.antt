-- ===== src/History/Statistics/Extremes.antt =====
-- The least and greatest times of each experiment in src/grvy_timer.cpp.
use grvy.Base.{
  ℕ, zero, suc, Bool, true, false, none, some, List, [], ◌∷◌, ◌++◌, length, get_elem?, ◌≡◌, ◌≢◌,
  refl, sym, ap, ◌∙◌, ◌⊎◌, inl, inr, if◌then◌else◌, arith, Bool-cases,
}
use grvy.Base.Int.{ℤ}
use grvy.Base.Text.{Text, text_key}
use grvy.History.Types.{Packet}
use grvy.History.Statistics.{MinMax, better}

module _ {F : Type 0} where
  -- Index i has a packet of the experiment with that time.
  abbrev pub At : Text → ℤ → ℕ → List (Packet F) → Type 0
  At e v i ps = (p : Packet F) × (get_elem? ps i ≡ some p) × (p.experiment ≡ e) × (p.total_time ≡ v)

  get_elem?-snoc :
      (ps : List (Packet F)) (p q : Packet F) (j : ℕ)
      → get_elem? (ps ++ p ∷ []) j ≡ some q
      → (get_elem? ps j ≡ some q) ⊎ ((j ≡ length ps) × (p ≡ q))
  get_elem?-snoc [] p q zero h = inr (refl, ground (arith, h))
  get_elem?-snoc [] p q (suc j) h = ground (arith, h)
  get_elem?-snoc (x ∷ ps) p q zero h = inl h
  get_elem?-snoc (x ∷ ps) p q (suc j) h = elim (get_elem?-snoc ps p q j h) [
    | inl e ↦ inl e
    | inr (e, s) ↦ inr (ap suc e, s)
  ]

  get_elem?-before :
      (ps : List (Packet F)) (p q : Packet F) (j : ℕ)
      → get_elem? ps j ≡ some q
      → get_elem? (ps ++ p ∷ []) j ≡ some q
  get_elem?-before [] p q j h = ground (arith, h)
  get_elem?-before (x ∷ ps) p q zero h = h
  get_elem?-before (x ∷ ps) p q (suc j) h = get_elem?-before ps p q j h

  get_elem?-last :
      (ps : List (Packet F)) (p : Packet F) → get_elem? (ps ++ p ∷ []) (length ps) ≡ some p
  get_elem?-last [] p = refl
  get_elem?-last (x ∷ ps) p = get_elem?-last ps p

  -- A packet after others: at an earlier index, or the last one.
  At-snoc :
      (e : Text) (v : ℤ) (j : ℕ) (ps : List (Packet F)) (p : Packet F)
      → At e v j (ps ++ p ∷ [])
      → At e v j ps ⊎ ((p.experiment ≡ e) × (p.total_time ≡ v))
  At-snoc e v j ps p (q, h, he, hv) = elim (get_elem?-snoc ps p q j h) [
    | inl before ↦ inl (q, before, he, hv)
    | inr (last, same) ↦ inr (ground (arith, same, he), ground (arith, same, hv))
  ]

  At-before :
      (e : Text) (v : ℤ) (j : ℕ) (ps : List (Packet F)) (p : Packet F)
      → At e v j ps
      → At e v j (ps ++ p ∷ [])
  At-before e v j ps p (q, h, he, hv) = (q, get_elem?-before ps p q j h, he, hv)

  At-last :
      (e : Text) (ps : List (Packet F)) (p : Packet F)
      → p.experiment ≡ e
      → At e p.total_time (length ps) (ps ++ p ∷ [])
  At-last e ps p he = (p, get_elem?-last ps p, he, refl)

module _ {F : Type 0} (less : ℤ → ℤ → Bool) where
  -- None where the experiment has no packet, or the time of one of its packets, which the time of none
  -- of them is less than.
  abbrev pub IsBest : Text → List (Packet F) → MinMax → Type 0
  IsBest e ps none = (v : ℤ) (j : ℕ) → At e v j ps → ⊥
  IsBest e ps (some (v, i)) = At e v i ps × ((w : ℤ) (j : ℕ) → At e w j ps → less w v ≡ false)

-- A strict order of times, for both kinds of bounds.
module _ {F : Type 0} (less : ℤ → ℤ → Bool) (irreflexive : (t : ℤ) → less t t ≡ false)
    (keeps : (t v w : ℤ) → less t v ≡ true → less w v ≡ false → less w t ≡ false) where
  -- A packet of another experiment changes nothing.
  pub IsBest-other :
      (e : Text) (ps : List (Packet F)) (p : Packet F) (x : MinMax)
      → p.experiment ≢ e
      → IsBest less e ps x
      → IsBest less e (ps ++ p ∷ []) x
  IsBest-other e ps p none ne h =
      λ v j at. elim (At-snoc e v j ps p at) [ inl before ↦ h v j before | inr (he, hv) ↦ ne he ]
  IsBest-other e ps p (some (v, i)) ne (at, least) = (
    At-before e v i ps p at,
    λ w j at'. elim (At-snoc e w j ps p at') [
      | inl before ↦ least w j before
      | inr (he, hv) ↦ absurd (ne he)
    ],
  )

  pub IsBest-same :
      (e : Text) (ps : List (Packet F)) (p : Packet F) (x : MinMax)
      → p.experiment ≡ e
      → IsBest less e ps x
      → IsBest less e
          (ps ++ p ∷ [])
          (if better less p.total_time x then some (p.total_time, length ps) else x)
  IsBest-same e ps p none he h = (
    At-last e ps p he,
    λ w j at. elim (At-snoc e w j ps p at) [
      | inl before ↦ absurd (h w j before)
      | inr (he', hv) ↦ ap (λ t. less t p.total_time) (sym hv) ∙ irreflexive p.total_time
    ],
  )
  IsBest-same e ps p (some (v, i)) he (at, least) = elim (Bool-cases (less p.total_time v)) [
    | inl closer ↦ rw closer (
      At-last e ps p he,
      λ w j at'. elim (At-snoc e w j ps p at') [
        | inl before ↦ keeps p.total_time v w closer (least w j before)
        | inr (he', hv) ↦ ap (λ t. less t p.total_time) (sym hv) ∙ irreflexive p.total_time
      ],
    )
    | inr further ↦ rw further (
      At-before e v i ps p at,
      λ w j at'. elim (At-snoc e w j ps p at') [
        | inl before ↦ least w j before
        | inr (he', hv) ↦ ap (λ t. less t v) (sym hv) ∙ further
      ],
    )
  ]
