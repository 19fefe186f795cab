-- ===== src/Input/Lifecycle.antt =====
-- Sequences of calls on one input of src/grvy_input.cpp.
use grvy.Base.Int.{ℤ, pos}
use grvy.Base.{
  ℕ, zero, suc, ◌+◌, ◌≤◌, ◌<◌, Bool, length, set, length-set, All, false, Option, none, some, List,
  [], ◌∷◌, ◌≡◌, refl, ◌⊎◌, inl, inr, Result, ok, ◌>>=◌, arith, Bool-cases,
}
use grvy.Base.Map.{insert}
use grvy.Base.Text.{Text, text_key}
use grvy.Input.Types.{Input, GetPotFile, GetPotCall, Kind}
use grvy.Input.Calls.{take_input, open_input, load_input, close_input, register_var, get_var}
use grvy.Input.Reads.{
  rounds, register_default, or_registered, read_var_default, read_elems, read_var_vec,
  read_var_ivec, read_bool, read_char, read_char_ivec,
}
use grvy.Input.Dump.{fdump}

-- A call on an input, with the type of its variable, where it has versions for several, and the values
-- that the caller's variables hold before it.
pub data Command {I : Type 0} (T : I → Type 0) : Type 0 where
  open_file : Option Text → Command T
  load_stream : Text → Command T
  close_file : Command T
  register : (i : I) → Text → T i → Command T
  look_up : (i : I) → Text → T i → Command T
  read_with : (i : I) → Text → T i → T i → Command T
  read_vec : (i : I) → Text → List (T i) → ℤ → T i → Command T
  read_elem : (i : I) → Text → T i → ℤ → T i → Command T
  read_flag : Text → Bool → Bool → Command T
  read_chars : Text → Text → Command T
  read_chars_elem : Text → Text → ℤ → Command T
  dump : Text → Text → Command T

-- The buffer of a vector is as long as its read.
abbrev pub Fits : {I : Type 0} {T : I → Type 0} → Command T → Type 0
Fits (open_file f) = Unit
Fits (load_stream t) = Unit
Fits close_file = Unit
Fits (register i var x) = Unit
Fits (look_up i var x) = Unit
Fits (read_with i var old def) = Unit
Fits (read_vec i var values n def) = rounds n ≤ length values
Fits (read_elem i var old n def) = Unit
Fits (read_flag var old def) = Unit
Fits (read_chars var old) = Unit
Fits (read_chars_elem var old n) = Unit
Fits (dump prefix out) = Unit

-- An input is open only while there is a GetPot object.
abbrev pub IsSafe : {G F D : Type 0} → Input G F D → Type 0
IsSafe {G} s = (s.initialized ≡ false) ⊎ ((g : G) × (s.ifile ≡ some g))

take_input-IsSafe :
    {G F D : Type 0} (getpot : GetPotFile G) (text : Text) (s : Input G F D)
    → IsSafe (take_input getpot text s).1
unfolding take_input
take_input-IsSafe getpot text s = inr (getpot.parse text, ground arith)

module _ {G F D T : Type 0} (k : Kind G F D T) where
  register_var-IsSafe :
      (var : Text) (def : T) (s : Input G F D) → IsSafe s → IsSafe (register_var k var def s)
  unfolding register_var
  register_var-IsSafe var def s h = ground (
    arith,
    h,
    k.ifile-with (insert var def (k.registry s)) s,
    k.initialized-with (insert var def (k.registry s)) s,
  )

  register_default-IsSafe :
      (var : Text) (def : T) (s : Input G F D) → IsSafe s → IsSafe (register_default k var def s)
  unfolding register_default
  register_default-IsSafe var def s h = ground (arith, h, register_var-IsSafe var def s h)

  or_registered-state :
      (var : Text) (def value : T) (s : Input G F D) → (or_registered k var def value s).2 ≡ s
  unfolding or_registered
  or_registered-state var def value s = ground arith

  read-IsSafe :
      (var : Text) (old def : T) (s : Input G F D)
      → IsSafe s
      → (s' : Input G F D) × ((read_var_default k var old def s >>= (λ r. ok r.2)) ≡ ok s')
        × IsSafe s'
  unfolding read_var_default
  read-IsSafe var old def s (inl e) = (s, ground (arith, e), inl e)
  read-IsSafe var old def s (inr (g, e)) = elim (Bool-cases s.initialized) [
    | inr off ↦ (s, ground (arith, off), inl off)
    | inl on ↦ (
      register_default k var def s,
      ground (
        arith,
        on,
        e,
        or_registered-state var def (k.getpot.call g var def) (register_default k var def s),
      ),
      register_default-IsSafe var def s (inr (g, e)),
    )
  ]

  read_elems-returns :
      (g : G) (var : Text) (def : T) (i n : ℕ) (values : List T)
      → i + n ≤ length values
      → (r : ℕ × List T) × (read_elems k g var def i n values ≡ ok r)
  unfolding read_elems
  read_elems-returns g var def i zero values h = ((1, values), refl)
  read_elems-returns g var def i (suc n) values h =
      let x = k.getpot.call_at g var def (pos i) in
      let (r, run) =
        read_elems-returns g var def (i + 1) n (set values i x)
          (omega (arith, length-set values i x)) in
      let within : i < length values = omega arith in
      elim (Bool-cases (k.eq x def)) [
        | inl e ↦ ((0, set values i x), ground (arith, within, e))
        | inr e ↦ (r, ground (arith, within, e, run))
      ]

  read_var_vec-returns :
      (var : Text) (values : List T) (n : ℤ) (def : T) (s : Input G F D)
      → IsSafe s
      → rounds n ≤ length values
      → (read_var_vec k var values n def s >>= (λ r. ok s)) ≡ ok s
  unfolding read_var_vec
  read_var_vec-returns var values n def s (inl e) fits = ground (arith, e)
  read_var_vec-returns var values n def s (inr (g, e)) fits =
      let (r, run) = read_elems-returns g var def 0 (rounds n) values (omega arith) in
      ground (arith, e, run)

module _ {G F D I : Type 0} {T : I → Type 0} (getpot : GetPotFile G)
    (k : (i : I) → Kind G F D (T i)) (chars : GetPotCall G Text) (bools : GetPotCall G Bool)
    (show_int : ℤ → Text) (show_float : F → Text) (show_double : D → Text) where
  abbrev pub step : Command T → Input G F D → Result (Input G F D)
  step (open_file file) s = ok (open_input getpot file s).1
  step (load_stream text) s = ok (load_input getpot text s).1
  step close_file s = ok (close_input getpot s).1
  step (register i var def) s = ok (register_var (k i) var def s)
  step (look_up i var old) s = let r = get_var (k i) var old s in ok s
  step (read_with i var old def) s = read_var_default (k i) var old def s >>= (λ r. ok r.2)
  step (read_vec i var values n def) s = read_var_vec (k i) var values n def s >>= (λ r. ok s)
  step (read_elem i var old n def) s = read_var_ivec (k i) var old n def s >>= (λ r. ok s)
  step (read_flag var old def) s = read_bool bools var old def s >>= (λ r. ok r.2)
  step (read_chars var old) s = read_char chars var old s >>= (λ r. ok s)
  step (read_chars_elem var old n) s = read_char_ivec chars var old n s >>= (λ r. ok s)
  step (dump prefix out) s =
      fdump getpot show_int show_float show_double prefix out s >>= (λ r. ok s)

  abbrev pub steps : List (Command T) → Input G F D → Result (Input G F D)
  steps [] s = ok s
  steps (c ∷ cs) s = step c s >>= (λ s'. steps cs s')

  unchanged :
      (c : Command T) (s : Input G F D)
      → IsSafe s
      → step c s ≡ ok s
      → (s' : Input G F D) × (step c s ≡ ok s') × IsSafe s'
  unchanged c s h e = (s, e, h)

  step-IsSafe :
      (c : Command T) (s : Input G F D)
      → Fits c
      → IsSafe s
      → (s' : Input G F D) × (step c s ≡ ok s') × IsSafe s'
  unfolding open_input load_input close_input read_var_ivec read_bool read_char read_char_ivec fdump
  step-IsSafe (open_file none) s f h = (_, refl, ground (arith, h))
  step-IsSafe (open_file (some text)) s f h =
      (_, refl, ground (arith, h, take_input-IsSafe getpot text s))
  step-IsSafe (load_stream text) s f h =
      (_, refl, ground (arith, h, take_input-IsSafe getpot text s))
  step-IsSafe close_file s f h = (_, refl, ground (arith, h))
  step-IsSafe (register i var def) s f h = (_, refl, register_var-IsSafe (k i) var def s h)
  step-IsSafe (look_up i var old) s f h = (s, refl, h)
  step-IsSafe (read_with i var old def) s f h = read-IsSafe (k i) var old def s h
  step-IsSafe (read_vec i var values n def) s f h =
      (s, read_var_vec-returns (k i) var values n def s h f, h)
  step-IsSafe (read_elem i var old n def) s f h = (s, ground (arith, h), h)
  step-IsSafe (read_flag var old def) s f (inl e) = (s, ground (arith, e), inl e)
  step-IsSafe (read_flag var old def) s f (inr (g, e)) = elim (Bool-cases s.initialized) [
    | inr off ↦ (s, ground (arith, off), inl off)
    | inl on ↦ (
      record s { default_bools = insert var def s.default_bools },
      ground (arith, on, e),
      inr (g, e),
    )
  ]
  step-IsSafe (read_chars var old) s f h = (s, ground (arith, h), h)
  step-IsSafe (read_chars_elem var old n) s f h = (s, ground (arith, h), h)
  step-IsSafe (dump prefix out) s f h = (s, ground (arith, h), h)

  -- Any sequence of calls on an input that is safe, as a new one is, where the buffers of vectors are as
  -- long as their reads, runs without an access to a GetPot object that is not there, and leaves the
  -- input safe: closed, or with an object. The calls are those that open, load, close, dump, register a
  -- default and look one up, and the reads of scalars, vectors, elements, flags and char arrays.
  pub steps-IsSafe :
      (cs : List (Command T)) (s : Input G F D)
      → All Fits cs
      → IsSafe s
      → (s' : Input G F D) × (steps cs s ≡ ok s') × IsSafe s'
  steps-IsSafe [] s f h = (s, refl, h)
  steps-IsSafe (c ∷ cs) s (fits, f) h =
      let (s1, e1, h1) = step-IsSafe c s fits h in
      let (s2, e2, h2) = steps-IsSafe cs s1 f h1 in (s2, ground (arith, e1, e2), h2)
