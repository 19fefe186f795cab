-- ===== src/Input/Tests.antt =====
-- Reads of src/grvy_input.cpp from a small file, whose variable "a" has two elements.
use grvy.Base.{
  ℕ, true, false, Bool, Option, none, some, List, [], ◌∷◌, length, get_elem?, ltb, ◌≡◌, refl, inl,
  if◌then◌else◌, ok, arith,
}
use grvy.Base.Map.{find}
use grvy.Base.Int.{ℤ, pos, negsuc}
use grvy.Base.Text.{Text, bytes, text_beq, text_key}
use grvy.Input.Types.{Input, GetPotFile, GetPotCall, Kind}
use grvy.Input.Calls.{new_input}
use grvy.Input.Reads.{string_kind, read_var, read_var_vec}
use grvy.Input.Precedence.{first_of, answer, read_var-first}
use grvy.Input.Vectors.{all_read, place_after, read_var_vec-reads}
use grvy.Input.Lifecycle.{
  Command, open_file, close_file, register, read_with, read_vec, read_flag, IsSafe, steps,
  steps-IsSafe,
}

abbrev name_a : Text
name_a = bytes "a"

abbrev name_b : Text
name_b = bytes "b"

abbrev value_x : Text
value_x = bytes "x"

abbrev default_y : Text
default_y = bytes "y"

-- The file is its first value.
abbrev element : Text → Text → ℤ → Option Text
element g var (negsuc n) = none
element g var (pos n) = if text_beq var name_a then (if ltb n 2 then some g else none) else none

abbrev scalar : Text → Text → Option Text
scalar g var = element g var (pos 0)

abbrev or_default : Text → Option Text → Text
or_default def none = def
or_default def (some x) = x

abbrev strings : Kind Text ℤ ℤ Text
strings = string_kind (record {
  call = λ g var def. elim (scalar g var) [ none ↦ def | some x ↦ x ];
  call_at = λ g var def i. elim (element g var i) [ none ↦ def | some x ↦ x ];
  entry = scalar;
  entry_at = element;
  call-entry = λ g var def. refl;
  call_at-entry = λ g var def i. refl;
})

abbrev files : GetPotFile Text
files = record { parse = λ t. t; size = length; print = λ g prefix. g }

abbrev opened : Input Text ℤ ℤ
opened = record new_input { ifile = some value_x; initialized = true }

read_var-first_example :
    (left : Text) × (read_var strings name_b value_x opened
      ≡ ok (
          let a = answer left (
            first_of
              (λ x. text_beq x (bytes "unknown"))
              (scalar value_x name_b)
              (find name_b opened.default_strings)) in
          (a.0, a.1, opened)))
unfolding text_beq
read_var-first_example = read_var-first strings name_b value_x value_x opened refl refl refl

read_var_vec-reads_example :
    (values' : List Text) × (read_var_vec strings name_a
        (default_y ∷ default_y ∷ default_y ∷ [])
        (pos 2)
        default_y
        opened
      ≡ ok (1, values'))
    × (length values' ≡ 3)
    × ((j : ℕ)
        → all_read strings value_x name_a default_y 0 2 ≡ true
        → get_elem? values' j
          ≡ place_after strings value_x name_a default_y 0 2
              (default_y ∷ default_y ∷ default_y ∷ [])
              j)
unfolding text_beq
read_var_vec-reads_example =
    read_var_vec-reads strings value_x name_a default_y 2 (default_y ∷ default_y ∷ default_y ∷ [])
      opened refl refl refl (omega arith)

-- One type of variables.
abbrev strings_only : (i : Unit {0}) → Kind Text ℤ ℤ Text
strings_only i = strings

abbrev no_bools : GetPotCall Text Bool
no_bools = record {
  call = λ g var def. def;
  call_at = λ g var def i. def;
  entry = λ g var. none;
  entry_at = λ g var i. none;
  call-entry = λ g var def. refl;
  call_at-entry = λ g var def i. refl;
}

abbrev six_calls : List (Command {I = Unit {0}} (λ i. Text))
six_calls =
    open_file (some value_x)
    ∷ register tt name_b default_y
    ∷ read_with tt name_a value_x default_y
    ∷ read_vec tt name_a (value_x ∷ value_x ∷ []) (pos 2) default_y
    ∷ read_flag name_b true false
    ∷ close_file
    ∷ []

steps-IsSafe_example :
    (s' : Input Text ℤ ℤ) × (steps files strings_only strings.getpot no_bools
        (λ x. [])
        (λ x. [])
        (λ x. [])
        six_calls
        new_input
      ≡ ok s')
    × IsSafe s'
steps-IsSafe_example =
    steps-IsSafe files strings_only strings.getpot no_bools (λ x. []) (λ x. []) (λ x. []) six_calls
      new_input (tt, (tt, (tt, (omega arith, (tt, (tt, tt)))))) (inl refl)
