-- ===== src/Interface/Tests.antt =====
-- The C and Fortran interfaces at concrete inputs. A file is its text, and has the text as its only
-- variable, "a".
use grvy.Base.{
  ℕ, ◌+◌, Bool, true, Option, none, some, List, [], ◌∷◌, ◌++◌, length, leb, ◌≡◌, refl,
  if◌then◌else◌, ok, fail, bad_access,
}
use grvy.Base.Int.{ℤ, pos, ◌-ℤ◌}
use grvy.Base.Map.{find}
use grvy.Base.Text.{Text, bytes, text_beq, text_key}
use grvy.Input.Types.{Input, GetPotFile, GetPotCall, Kind}
use grvy.Input.Calls.{new_input}
use grvy.Input.Reads.{string_kind, int_kind, char_def}
use grvy.Input.Precedence.{first_of, answer}
use grvy.Interface.Calls.{
  InputCall, fopen, fread, fread_char, register, fclose, c_calls, method_calls, shared,
  c_calls-new_input,
}
use grvy.Interface.Fortran.{
  f2c_char, fortran_fread_char, fortran_fread_char_ivec, fortran_register_char,
  fortran_register_get_char,
}
use grvy.Interface.Fortran.Strings.{
  after, stored, element, fortran_fread_char-stored, fortran_register_get_char-register,
}
use grvy.Timer.Types.{sample_lists, Timer}
use grvy.Timer.Calls.{gtimer, second_char_negative}
use grvy.Timer.Regions.{Regions, leave, enter, IsPlain}
use grvy.Timer.Session.{top_readings}
use grvy.Interface.Timers.Programs.{
  starts, finalize_all, elapsed, nothing, seconds, region_calls, answers_of, c_timer_calls,
  c_timer_calls-session,
}

abbrev variable_a : Text → Text → Option Text
variable_a g var = if text_beq var (bytes "a") then some g else none

abbrev texts : GetPotCall Text Text
texts = record {
  call = λ g var def. elim (variable_a g var) [ none ↦ def | some x ↦ x ];
  call_at = λ g var def i. elim (variable_a g var) [ none ↦ def | some x ↦ x ];
  entry = variable_a;
  entry_at = λ g var i. variable_a g var;
  call-entry = λ g var def. refl;
  call_at-entry = λ g var def i. refl;
}

abbrev no_bools : GetPotCall Text Bool
no_bools = record {
  call = λ g var def. def;
  call_at = λ g var def i. def;
  entry = λ g var. none;
  entry_at = λ g var i. none;
  call-entry = λ g var def. refl;
  call_at-entry = λ g var def i. refl;
}

abbrev text_files : GetPotFile Text
text_files = record { parse = λ t. t; size = length; print = λ g prefix. g }

abbrev no_ints : GetPotCall Text ℤ
no_ints = record {
  call = λ g var def. def;
  call_at = λ g var def i. def;
  entry = λ g var. none;
  entry_at = λ g var i. none;
  call-entry = λ g var def. refl;
  call_at-entry = λ g var def i. refl;
}

-- Strings and integers.
data VarType : Type 0 where
  text_var int_var : VarType

abbrev TypeOf : VarType → Type 0
TypeOf text_var = Text
TypeOf int_var = ℤ

abbrev kind : (i : VarType) → Kind Text ℤ ℤ (TypeOf i)
kind text_var = string_kind texts
kind int_var = int_kind no_ints

abbrev later_calls : List (InputCall TypeOf)
later_calls =
    fread text_var (bytes "a") []
    ∷ fread int_var (bytes "n") (pos 4)
    ∷ register text_var (bytes "b") (bytes "x")
    ∷ fread_char (bytes "b") []
    ∷ fclose
    ∷ []

c_calls-new_input_example :
    c_calls text_files
      (λ t. t)
      (λ t. some (bytes "value"))
      kind
      texts
      no_bools
      (λ x. [])
      (λ x. [])
      (λ x. [])
      (fopen (bytes "file") ∷ later_calls)
      none
    ≡ shared text_files
        (λ t. t)
        (λ t. some (bytes "value"))
        kind
        texts
        no_bools
        (λ x. [])
        (λ x. [])
        (λ x. [])
        (method_calls text_files
          (λ t. t)
          (λ t. some (bytes "value"))
          kind
          texts
          no_bools
          (λ x. [])
          (λ x. [])
          (λ x. [])
          (fopen (bytes "file") ∷ later_calls)
          new_input)
c_calls-new_input_example =
    c_calls-new_input text_files (λ t. t) (λ t. some (bytes "value")) kind texts no_bools (λ x. [])
      (λ x. []) (λ x. []) (fopen (bytes "file")) later_calls

abbrev opened_value : Input Text ℤ ℤ
opened_value = record new_input { ifile = some (bytes "value"); initialized = true }

fortran_fread_char-stored_example :
    (fortran_fread_char texts (bytes "a") 7 (some opened_value)
      ≡ ok (
          let a = answer char_def (
            first_of
              (λ x. text_beq x char_def)
              (variable_a (bytes "value") (f2c_char (bytes "a")))
              (find (f2c_char (bytes "a")) opened_value.default_strings)) in
          let r = stored 7 a.0 a.1 in (r.0, r.1, some opened_value)))
    × (fortran_fread_char_ivec texts (bytes "a") 7 (pos 1) (some opened_value)
        ≡ ok (
            let a = element (variable_a (bytes "value") (f2c_char (bytes "a"))) in
            let r = stored 7 a.0 a.1 in (r.0, r.1, some opened_value)))
fortran_fread_char-stored_example =
    fortran_fread_char-stored texts (bytes "a") 7 (pos 1) (bytes "value") opened_value refl refl

fortran_register_get_char-register_example :
    (let p' =
        (fortran_register_char {G = Text} {F = ℤ} {D = ℤ} texts (bytes "b") (bytes "x") none).1 in
      fortran_register_get_char texts (bytes "b") (bytes "old") p' ≡ (
        if leb (length (bytes "x")) (length (bytes "old"))
        then ok (1, bytes "x" ++ after (length (bytes "x")) (bytes "old"), p')
        else fail bad_access))
fortran_register_get_char-register_example =
    fortran_register_get_char-register texts (bytes "b") (bytes "x") (bytes "old") none (refl, tt)

abbrev ticks : ℕ → ℤ
ticks k = pos (10 + k)

abbrev one_region : Regions
one_region = enter (bytes "solve") leave leave

solve-IsPlain : IsPlain (bytes "solve")
unfolding text_beq gtimer second_char_negative
solve-IsPlain = (refl, refl)

c_timer_calls-session_example :
    (s : Timer (List ℤ)) × (c_timer_calls
        (sample_lists (λ s l. pos 0))
        ticks
        (starts (bytes "run") ∷ region_calls one_region (finalize_all ∷ elapsed gtimer ∷ []))
        none
      ≡ ok (
        nothing
            ∷ answers_of one_region
                (nothing ∷ seconds (ticks (2 + top_readings one_region) -ℤ ticks 1) ∷ []),
        some s,
      ))
c_timer_calls-session_example =
    c_timer_calls-session (sample_lists (λ s l. pos 0)) ticks (bytes "run") one_region
      (solve-IsPlain, tt, tt, tt)
