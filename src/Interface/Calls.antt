-- ===== src/Interface/Calls.antt =====
-- Sequences of calls of the C functions in src/grvy_input_interface.cpp, beside the same calls of the
-- methods on one input.
use grvy.Base.{
  ℕ, Bool, false, Option, none, some, List, [], ◌∷◌, ◌≡◌, refl, Result, ok, bad_access, guard,
  ◌>>=◌, ◌>>◌, ◌==◌, Result-cases, inl, inr, if◌then◌else◌, arith,
}
use grvy.Base.Int.{ℤ, pos, beq_ℤ}
use grvy.Base.Text.{Text}
use grvy.Input.Types.{Input, GetPotFile, GetPotCall, Kind}
use grvy.Input.Calls.{new_input, open_input, close_input, register_var, get_var}
use grvy.Input.Reads.{
  read_var_default, read_var_vec, read_var_ivec, read_char, read_char_ivec, read_bool,
}
use grvy.Input.Dump.{fdump}
use grvy.Interface.Parser.{
  verify_parser_allocated, input_fopen, input_fclose, input_fdump, input_fread_logical_from_int,
  input_fread_char, input_fread_char_ivec, input_fread, input_fread_vec, input_fread_ivec,
  input_register, input_register_get,
}

-- A call, with the type of its variable, where it has versions for several, and the values that the caller's variables hold before it.
pub data InputCall {I : Type 0} (T : I → Type 0) : Type 0 where
  fopen : Text → InputCall T
  fclose : InputCall T
  dump_to : Text → Text → InputCall T
  fread : (i : I) → Text → T i → InputCall T
  fread_vec : (i : I) → Text → List (T i) → ℤ → InputCall T
  fread_ivec : (i : I) → Text → T i → ℤ → InputCall T
  fread_logical : Text → ℤ → InputCall T
  fread_char : Text → Text → InputCall T
  fread_char_ivec : Text → Text → ℤ → InputCall T
  register : (i : I) → Text → T i → InputCall T
  register_get : (i : I) → Text → T i → InputCall T

-- The return code, and what the caller's variables hold after it.
pub data Answer {I : Type 0} (T : I → Type 0) : Type 0 where
  code_only : ℕ → Answer T
  with_text : ℕ → Text → Answer T
  with_value : (i : I) → ℕ → T i → Answer T
  with_vector : (i : I) → ℕ → List (T i) → Answer T
  with_flag : ℕ → ℕ → Answer T

module _ {G F D I : Type 0} {T : I → Type 0} (getpot : GetPotFile G) (trim : Text → Text)
    (files : Text → Option Text) (k : (i : I) → Kind G F D (T i)) (chars : GetPotCall G Text)
    (bools : GetPotCall G Bool) (show_int : ℤ → Text) (show_float : F → Text)
    (show_double : D → Text) where
  -- A call of the C interface.
  abbrev pub c_call : InputCall T → Option (Input G F D) → Result (Answer T × Option (Input G F D))
  c_call (fopen name) p =
      let (code, p') = input_fopen getpot trim files name p in ok (code_only code, p')
  c_call fclose p = let (code, p') = input_fclose getpot p in ok (code_only code, p')
  c_call (dump_to prefix out) p = do
    (code, text, p') ← input_fdump getpot show_int show_float show_double prefix out p
    ok (with_text code text, p')
  c_call (fread i var old) p = do
    (code, x, p') ← input_fread (k i) var old p
    ok (with_value i code x, p')
  c_call (fread_vec i var old n) p = do
    (code, xs, p') ← input_fread_vec (k i) var old n p
    ok (with_vector i code xs, p')
  c_call (fread_ivec i var old elem) p = do
    (code, x, p') ← input_fread_ivec (k i) var old elem p
    ok (with_value i code x, p')
  c_call (fread_logical var def) p = do
    (code, x, p') ← input_fread_logical_from_int bools var def p
    ok (with_flag code x, p')
  c_call (fread_char var old) p = do
    (code, t, p') ← input_fread_char chars var old p
    ok (with_text code t, p')
  c_call (fread_char_ivec var old elem) p = do
    (code, t, p') ← input_fread_char_ivec chars var old elem p
    ok (with_text code t, p')
  c_call (register i var x) p =
      let (code, p') = input_register (k i) var x p in ok (code_only code, p')
  c_call (register_get i var old) p =
      let (code, x, p') = input_register_get (k i) var old p in ok (with_value i code x, p')

  -- The call of the method, on an input of one's own.
  abbrev pub method_call : InputCall T → Input G F D → Result (Answer T × Input G F D)
  method_call (fopen name) s =
      let (code, s') = open_input getpot (files (trim name)) s in ok (code_only code, s')
  method_call fclose s = let (code, s') = close_input getpot s in ok (code_only code, s')
  method_call (dump_to prefix out) s = do
    (code, text) ← fdump getpot show_int show_float show_double prefix out s
    ok (with_text code text, s)
  method_call (fread i var old) s = do
    (code, x, s') ← read_var_default (k i) var old (k i).no_default s
    ok (with_value i code x, s')
  method_call (fread_vec i var old n) s = do
    (code, xs) ← read_var_vec (k i) var old n (k i).no_default s
    ok (with_vector i code xs, s)
  method_call (fread_ivec i var old elem) s = do
    (code, x) ← read_var_ivec (k i) var old elem (k i).no_default s
    ok (with_value i code x, s)
  method_call (fread_logical var def) s = do
    (code, flag, s') ← read_bool bools var false (beq_ℤ def (pos 1)) s
    guard (code == 1) bad_access
    ok (with_flag code (if flag then 1 else 0), s')
  method_call (fread_char var old) s = do
    (code, t) ← read_char chars var old s
    ok (with_text code t, s)
  method_call (fread_char_ivec var old elem) s = do
    (code, t) ← read_char_ivec chars var old elem s
    ok (with_text code t, s)
  method_call (register i var x) s = ok (code_only 1, register_var (k i) var x s)
  method_call (register_get i var old) s =
      let (code, x) = get_var (k i) var old s in ok (with_value i code x, s)

  abbrev pub c_calls :
      List (InputCall T) → Option (Input G F D) → Result (List (Answer T) × Option (Input G F D))
  c_calls [] p = ok ([], p)
  c_calls (c ∷ cs) p = do (a, p') ← c_call c p; (more, p'') ← c_calls cs p'; ok (a ∷ more, p'')

  abbrev pub method_calls :
      List (InputCall T) → Input G F D → Result (List (Answer T) × Input G F D)
  method_calls [] s = ok ([], s)
  method_calls (c ∷ cs) s = do
    (a, s') ← method_call c s
    (more, s'') ← method_calls cs s'
    ok (a ∷ more, s'')

  abbrev pub shared : {B : Type 0} → Result (B × Input G F D) → Result (B × Option (Input G F D))
  shared r = r >>= λ x. ok (x.0, some x.1)

  c_call-method_call :
      (c : InputCall T) (p : Option (Input G F D))
      → c_call c p ≡ shared (method_call c (verify_parser_allocated p))
  unfolding input_fopen input_fclose input_fdump input_fread input_fread_vec input_fread_ivec
      input_fread_logical_from_int input_fread_char input_fread_char_ivec input_register
      input_register_get
  c_call-method_call (fopen name) p = ground arith
  c_call-method_call fclose p = ground arith
  c_call-method_call (dump_to prefix out) p = ground arith
  c_call-method_call (fread i var old) p = ground arith
  c_call-method_call (fread_vec i var old n) p = ground arith
  c_call-method_call (fread_ivec i var old elem) p = ground arith
  c_call-method_call (fread_logical var def) p = ground arith
  c_call-method_call (fread_char var old) p = ground arith
  c_call-method_call (fread_char_ivec var old elem) p = ground arith
  c_call-method_call (register i var x) p = ground arith
  c_call-method_call (register_get i var old) p = ground arith

  -- Calls on an input that is there.
  c_calls-method_calls :
      (cs : List (InputCall T)) (s : Input G F D) → c_calls cs (some s) ≡ shared (method_calls cs s)
  unfolding verify_parser_allocated
  c_calls-method_calls [] s = refl
  c_calls-method_calls (c ∷ cs) s = elim (Result-cases (method_call c s)) [
    | inl ((a, s'), e) ↦
        ground (arith, c_call-method_call c (some s), e, c_calls-method_calls cs s')
    | inr (f, e) ↦ ground (arith, c_call-method_call c (some s), e)
  ]

  -- Any sequence of calls of the C functions, of whatever types one after another, from the start of
  -- the program, gives the answers of the
  -- methods on one input from its constructor on, stops where those do, and leaves their state in the
  -- shared input: the first call makes it, and the later ones keep it.
  pub c_calls-new_input :
      (c : InputCall T) (cs : List (InputCall T))
      → c_calls (c ∷ cs) none ≡ shared (method_calls (c ∷ cs) new_input)
  unfolding verify_parser_allocated
  c_calls-new_input c cs = elim (Result-cases (method_call c new_input)) [
    | inl ((a, s'), e) ↦ ground (arith, c_call-method_call c none, e, c_calls-method_calls cs s')
    | inr (f, e) ↦ ground (arith, c_call-method_call c none, e)
  ]
