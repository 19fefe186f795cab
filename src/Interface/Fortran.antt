-- ===== src/Interface/Fortran.antt =====
-- The Fortran functions of src/grvy_input_interface.cpp: names and texts come with their lengths,
-- padded by the caller, and a text goes back into storage of a given length.
pub mod Strings
use grvy.Base.{
  ℕ, zero, suc, Bool, false, Option, none, some, List, [], ◌∷◌, length, replicate, ltb, ◌==◌,
  if◌then◌else◌, Result, ok, fail, bad_access, guard, ◌>>=◌, ◌>>◌,
}
use grvy.Base.Int.{ℤ, pos, ◌-ℤ◌}
use grvy.Base.Text.{Text}
use grvy.Input.Types.{Input, GetPotCall, Kind}
use grvy.Input.Calls.{get_var}
use grvy.Input.Reads.{string_kind}
use grvy.Interface.Parser.{input_fread_char, input_fread_char_ivec, input_register}

-- `grvy_f2c_char` of src/grvy_utils.cpp, as the C string that its buffer holds: it ends at the first 0.
unfoldable pub f2c_char : Text → Text
f2c_char [] = []
f2c_char (c ∷ t) = let rest = f2c_char t in if c == 0 then [] else c ∷ rest

-- `strncpy(value,tmpvar,strlen(tmpvar))`, into storage that holds the second text. What follows the
-- copied characters stays.
unfoldable pub copy_chars : Text → Text → Result Text
copy_chars [] value = ok value
copy_chars (c ∷ t) [] = fail bad_access
copy_chars (c ∷ t) (v ∷ value) = do rest ← copy_chars t value; ok (c ∷ rest)

-- The loop that fills the storage with blanks.
abbrev pub blanks : ℕ → Text
blanks n = replicate n 32

-- The end of both reads of a text: too long a text is not copied.
unfoldable pub fill_storage : ℕ → ℕ → Text → Result (ℕ × Text)
fill_storage storage code tmpvar =
    if ltb storage (length tmpvar)
    then ok (0, blanks storage)
    else (do value ← copy_chars tmpvar (blanks storage); ok (code, value))

module _ {G F D : Type 0} where
  -- Has the read set `tmpvar`? It does on an open input only.
  abbrev pub is_open : Option (Input G F D) → Bool
  is_open none = false
  is_open (some s) = s.initialized

  -- `grvy_input_fread_char_`: the flag, the storage, and the shared input.
  unfoldable pub fortran_fread_char :
      GetPotCall G Text → Text → ℕ → Option (Input G F D) → Result (ℕ × Text × Option (Input G F D))
  fortran_fread_char getpot var storage p = do
    (code, tmpvar, p') ← input_fread_char getpot (f2c_char var) [] p
    guard (is_open p') bad_access
    (flag, value) ← fill_storage storage code tmpvar
    ok (flag, value, p')

  -- `grvy_input_fread_char_ivec_`, whose elements count from 1.
  unfoldable pub fortran_fread_char_ivec :
      GetPotCall G Text
      → Text
      → ℕ
      → ℤ
      → Option (Input G F D)
      → Result (ℕ × Text × Option (Input G F D))
  fortran_fread_char_ivec getpot var storage elem p = do
    (code, tmpvar, p') ← input_fread_char_ivec getpot (f2c_char var) [] (elem -ℤ pos 1) p
    guard (is_open p') bad_access
    (flag, value) ← fill_storage storage code tmpvar
    ok (flag, value, p')

  -- `grvy_input_register_char_`.
  unfoldable pub fortran_register_char :
      GetPotCall G Text → Text → Text → Option (Input G F D) → ℕ × Option (Input G F D)
  fortran_register_char getpot var value p =
      input_register (string_kind getpot) (f2c_char var) (f2c_char value) p

  -- `grvy_input_register_get_char_`. Get_Var sets `tmpvar` where it returns 1. The storage is neither
  -- measured nor filled with blanks.
  unfoldable pub fortran_register_get_char :
      GetPotCall G Text
      → Text
      → Text
      → Option (Input G F D)
      → Result (ℕ × Text × Option (Input G F D))
  fortran_register_get_char getpot var value none = fail bad_access
  fortran_register_get_char getpot var value (some s) = do
    let (flag, tmpvar) = get_var (string_kind getpot) (f2c_char var) [] s
    guard (flag == 1) bad_access
    copied ← copy_chars tmpvar value
    ok (flag, copied, some s)

  module _ {T : Type 0} (k : Kind G F D T) where
    -- `grvy_input_register_int_`, `_float_` and `_double_`.
    unfoldable pub fortran_register : Text → T → Option (Input G F D) → ℕ × Option (Input G F D)
    fortran_register var value p = input_register k (f2c_char var) value p

    -- `grvy_input_register_get_int_`, `_float_` and `_double_`, which take the shared input to be there.
    unfoldable pub fortran_register_get :
        Text → T → Option (Input G F D) → Result (ℕ × T × Option (Input G F D))
    fortran_register_get var old none = fail bad_access
    fortran_register_get var old (some s) =
        let (flag, value) = get_var k (f2c_char var) old s in ok (flag, value, some s)
