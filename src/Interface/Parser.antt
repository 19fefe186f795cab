-- ===== src/Interface/Parser.antt =====
-- The C functions of src/grvy_input_interface.cpp. They share one input, which is none until the
-- first call. The functions for int, float and double differ in the type only.
use grvy.Base.{
  ℕ, Bool, false, Option, none, some, List, ◌==◌, if◌then◌else◌, Result, ok, bad_access, guard,
  ◌>>=◌, ◌>>◌,
}
use grvy.Base.Int.{ℤ, pos, beq_ℤ}
use grvy.Base.Text.{Text}
use grvy.Input.Types.{Input, GetPotFile, GetPotCall, Kind}
use grvy.Input.Calls.{new_input, open_input, close_input, register_var, get_var}
use grvy.Input.Reads.{
  read_var_default, read_var_vec, read_var_ivec, read_char, read_char_ivec, read_bool,
}
use grvy.Input.Dump.{fdump}

module _ {G F D : Type 0} where
  -- `verify_C_parser_allocated`.
  unfoldable pub verify_parser_allocated : Option (Input G F D) → Input G F D
  verify_parser_allocated none = new_input
  verify_parser_allocated (some s) = s

  -- `grvy_input_fopen`. `trim` is boost's, and `files` what fopen finds under a name.
  unfoldable pub input_fopen :
      GetPotFile G
      → (Text → Text)
      → (Text → Option Text)
      → Text
      → Option (Input G F D)
      → ℕ × Option (Input G F D)
  unfolding verify_parser_allocated
  input_fopen getpot trim files filename p =
      let (code, s) = open_input getpot (files (trim filename)) (verify_parser_allocated p) in
      (code, some s)

  unfoldable pub input_fclose : GetPotFile G → Option (Input G F D) → ℕ × Option (Input G F D)
  unfolding verify_parser_allocated
  input_fclose getpot p =
      let (code, s) = close_input getpot (verify_parser_allocated p) in (code, some s)

  -- `grvy_input_fdump`, where the prefix is empty, `grvy_input_fdump_delim`, and
  -- `grvy_input_fdump_file`, to the text that the file has so far.
  unfoldable pub input_fdump :
      GetPotFile G
      → (ℤ → Text)
      → (F → Text)
      → (D → Text)
      → Text
      → Text
      → Option (Input G F D)
      → Result (ℕ × Text × Option (Input G F D))
  unfolding verify_parser_allocated
  input_fdump getpot show_int show_float show_double prefix out p = do
    let s = verify_parser_allocated p
    (code, text) ← fdump getpot show_int show_float show_double prefix out s
    ok (code, text, some s)

  -- `grvy_input_fread_logical_from_int`. The read leaves `flag` unset where it returns 0.
  unfoldable pub input_fread_logical_from_int :
      GetPotCall G Bool → Text → ℤ → Option (Input G F D) → Result (ℕ × ℕ × Option (Input G F D))
  unfolding verify_parser_allocated
  input_fread_logical_from_int getpot var default_value p = do
    (code, flag, s) ←
        read_bool getpot var false (beq_ℤ default_value (pos 1)) (verify_parser_allocated p)
    guard (code == 1) bad_access
    ok (code, if flag then 1 else 0, some s)

  unfoldable pub input_fread_char :
      GetPotCall G Text
      → Text
      → Text
      → Option (Input G F D)
      → Result (ℕ × Text × Option (Input G F D))
  unfolding verify_parser_allocated
  input_fread_char getpot var old p = do
    let s = verify_parser_allocated p
    (code, value) ← read_char getpot var old s
    ok (code, value, some s)

  unfoldable pub input_fread_char_ivec :
      GetPotCall G Text
      → Text
      → Text
      → ℤ
      → Option (Input G F D)
      → Result (ℕ × Text × Option (Input G F D))
  unfolding verify_parser_allocated
  input_fread_char_ivec getpot var old elem p = do
    let s = verify_parser_allocated p
    (code, value) ← read_char_ivec getpot var old elem s
    ok (code, value, some s)

  module _ {T : Type 0} (k : Kind G F D T) where
    -- `grvy_input_fread_float`, `_double` and `_int`: the default is the value that stands for none.
    unfoldable pub input_fread :
        Text → T → Option (Input G F D) → Result (ℕ × T × Option (Input G F D))
    unfolding verify_parser_allocated
    input_fread var old p = do
      (code, value, s) ← read_var_default k var old k.no_default (verify_parser_allocated p)
      ok (code, value, some s)

    unfoldable pub input_fread_vec :
        Text → List T → ℤ → Option (Input G F D) → Result (ℕ × List T × Option (Input G F D))
    unfolding verify_parser_allocated
    input_fread_vec var values nelems p = do
      let s = verify_parser_allocated p
      (code, read) ← read_var_vec k var values nelems k.no_default s
      ok (code, read, some s)

    unfoldable pub input_fread_ivec :
        Text → T → ℤ → Option (Input G F D) → Result (ℕ × T × Option (Input G F D))
    unfolding verify_parser_allocated
    input_fread_ivec var old elem p = do
      let s = verify_parser_allocated p
      (code, value) ← read_var_ivec k var old elem k.no_default s
      ok (code, value, some s)

    -- `grvy_input_register_int`, `_float`, `_double` and `_char`.
    unfoldable pub input_register : Text → T → Option (Input G F D) → ℕ × Option (Input G F D)
    unfolding verify_parser_allocated
    input_register var value p = (1, some (register_var k var value (verify_parser_allocated p)))

    -- `grvy_input_register_get_int`, `_float`, `_double` and `_char`.
    unfoldable pub input_register_get :
        Text → T → Option (Input G F D) → ℕ × T × Option (Input G F D)
    unfolding verify_parser_allocated
    input_register_get var old p =
        let s = verify_parser_allocated p in
        let (code, value) = get_var k var old s in (code, value, some s)
