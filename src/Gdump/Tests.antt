-- ===== src/Gdump/Tests.antt =====
-- A command line of src/gdump.cpp with one required word, a delimiter and two flags.
use grvy.Base.{ℕ, none, [], ◌∷◌, ◌||◌, refl, if◌then◌else◌}
use grvy.Base.Text.{bytes, text_beq}
use grvy.Timer.Options.{default_options}
use grvy.Gadd.Arguments.{CommandLine}
use grvy.Gadd.Parsing.{without, values_of}
use grvy.Gdump.{parse_dump_options}
use grvy.Gdump.Parsing.{Required, value_options, parse_dump_options-without}

abbrev command_line : CommandLine ℕ
command_line = record {
  search = λ long short.
      text_beq short (bytes "-d") || text_beq short (bytes "-q") || text_beq short (bytes "-c");
  next = λ long short def. if text_beq short (bytes "-d") then bytes "%" else def;
  next_int = λ long short def. def;
  next_double = λ long short def. def;
  nominus_vector = bytes "%" ∷ bytes "file" ∷ [];
  unidentified_options = [];
  text_of_int = λ x. [];
  text_of_double = λ x. [];
  double_of_text = λ t. none;
}

parse_dump_options-without_example :
    Required command_line
      (parse_dump_options command_line default_options)
      (without (values_of (value_options command_line)) command_line.nominus_vector)
unfolding text_beq
parse_dump_options-without_example =
    parse_dump_options-without command_line (refl, (refl, tt)) refl refl refl
