-- ===== src/Input/Vectors.antt =====
-- What Read_Var_Vec of src/grvy_input.cpp leaves in its buffer, and when it fails.
use grvy.Base.{
  ℕ, zero, suc, ◌+◌, ◌≤◌, ◌<◌, Bool, true, false, Option, none, some, List, length, set, get_elem?,
  ltb, leb, ◌&&◌, ◌≡◌, refl, if◌then◌else◌, ok, arith, Option-cases, Bool-cases, inl, inr, ◌⊎◌, ◌∙◌,
  ==_cases, length-set, get_elem?-set_self, get_elem?-set_ne,
}
use grvy.Base.Int.{pos}
use grvy.Base.Text.{Text}
use grvy.Input.Types.{Input, Kind}
use grvy.Input.Reads.{read_elems, read_var_vec}

module _ {G F D T : Type 0} (k : Kind G F D T) where
  -- An element that is in the file and is not the default's.
  abbrev pub is_read : G → Text → T → ℕ → Bool
  is_read g var def i = elim (k.getpot.entry_at g var (pos i)) [
    | none ↦ false
    | some x ↦ if k.eq x def then false else true
  ]

  -- All of the n elements from the i-th are.
  abbrev pub all_read : G → Text → T → ℕ → ℕ → Bool
  all_read g var def i zero = true
  all_read g var def i (suc n) = is_read g var def i && all_read g var def (i + 1) n

  -- The place j of the buffer, after n elements from the i-th were read into it.
  abbrev pub place_after : G → Text → T → ℕ → ℕ → List T → ℕ → Option T
  place_after g var def i n values j =
      if leb i j && ltb j (i + n) then k.getpot.entry_at g var (pos j) else get_elem? values j

  is_read_iff :
      (g : G) (var : Text) (def : T) (i : ℕ)
      → k.eq def def ≡ true
      → (is_read g var def i
          ≡ (if k.eq (k.getpot.call_at g var def (pos i)) def then false else true))
        × ((k.eq (k.getpot.call_at g var def (pos i)) def ≡ true)
            ⊎ (k.getpot.entry_at g var (pos i) ≡ some (k.getpot.call_at g var def (pos i))))
  is_read_iff g var def i he = elim (Option-cases (k.getpot.entry_at g var (pos i))) [
    | inl e ↦ (
      ground (arith, he, e, k.getpot.call_at-entry g var def (pos i)),
      inl (ground (arith, he, e, k.getpot.call_at-entry g var def (pos i))),
    )
    | inr (x, e) ↦ (
      ground (arith, he, e, k.getpot.call_at-entry g var def (pos i)),
      inr (ground (arith, he, e, k.getpot.call_at-entry g var def (pos i))),
    )
  ]

  -- The first place, and the places after it.
  place_first :
      (g : G) (var : Text) (def x : T) (i n j : ℕ) (values : List T)
      → i < length values
      → k.getpot.entry_at g var (pos i) ≡ some x
      → place_after g var def (i + 1) n (set values i x) j
        ≡ place_after g var def i (suc n) values j
  place_first g var def x i n j values h e = elim (==_cases i j) [
    | inl q ↦
        let found = get_elem?-set_self values i x h in
        let same : k.getpot.entry_at g var (pos j) ≡ some x = cc in
        let at_j : get_elem? (set values i x) j ≡ some x = cc in ground (arith, q, same, at_j)
    | inr q ↦ ground (arith, q, get_elem?-set_ne values i j x q)
  ]

  read_elems-lem :
      (g : G) (var : Text) (def : T) (i n : ℕ) (values : List T)
      → k.eq def def ≡ true
      → i + n ≤ length values
      → (code : ℕ) × (values' : List T) × (read_elems k g var def i n values ≡ ok (code, values'))
        × (code ≡ (if all_read g var def i n then 1 else 0))
        × (length values' ≡ length values)
        × ((j : ℕ)
            → all_read g var def i n ≡ true
            → get_elem? values' j ≡ place_after g var def i n values j)
  unfolding read_elems
  read_elems-lem g var def i zero values he h = (1, values, refl, refl, refl, λ j p. ground arith)
  read_elems-lem g var def i (suc n) values he h =
      let x = k.getpot.call_at g var def (pos i) in
      let (code, values', run, hc, hl, hv) =
        read_elems-lem g var def (i + 1) n (set values i x) he
          (omega (arith, length-set values i x)) in
      let (read, found) = is_read_iff g var def i he in
      let within : i < length values = omega arith in
      elim (Bool-cases (k.eq x def)) [
        | inl e ↦ (
          0,
          set values i x,
          ground (arith, within, e),
          ground (arith, read, e),
          length-set values i x,
          λ j p. ground (arith, read, e, p),
        )
        | inr e ↦ (
          code,
          values',
          ground (arith, within, e, run),
          ground (arith, read, e, hc),
          hl ∙ length-set values i x,
          λ j p.
              hv j (ground (arith, read, e, p))
              ∙ place_first g var def x i n j values within (ground (arith, found, e)),
        )
      ]

  -- On an open input, a read of n elements into a buffer of that size or more returns 1 where the
  -- file has all of them and none equals the default, and then they stand in the buffer and the rest is
  -- unchanged. It returns 0 where an element is missing or equals the default, also a default that the
  -- caller gives.
  pub read_var_vec-reads :
      (g : G) (var : Text) (def : T) (n : ℕ) (values : List T) (s : Input G F D)
      → s.initialized ≡ true
      → s.ifile ≡ some g
      → k.eq def def ≡ true
      → n ≤ length values
      → (values' : List T) × (read_var_vec k var values (pos n) def s
          ≡ ok (if all_read g var def 0 n then 1 else 0, values'))
        × (length values' ≡ length values)
        × ((j : ℕ)
            → all_read g var def 0 n ≡ true
            → get_elem? values' j ≡ place_after g var def 0 n values j)
  unfolding read_var_vec
  read_var_vec-reads g var def n values s hi hg he h =
      let (code, values', run, hc, hl, hv) = read_elems-lem g var def 0 n values he (omega arith) in
      (values', ground (arith, hi, hg, run, hc), hl, hv)
