-- ===== src/Gadd/Tests.antt =====
-- A command line of src/gadd.cpp with three required words and a comment.
use grvy.Base.{ℕ, some, [], ◌∷◌, ◌≡◌, refl}
use grvy.Base.Text.{bytes, text_beq}
use grvy.Gadd.Arguments.{CommandLine, pop_argument}

abbrev command_line : CommandLine ℕ
command_line = record {
  search = λ long short. text_beq short (bytes "-c");
  next = λ long short def. bytes "slow";
  next_int = λ long short def. def;
  next_double = λ long short def. def;
  nominus_vector = bytes "5" ∷ bytes "test" ∷ bytes "slow" ∷ bytes "file" ∷ [];
  unidentified_options = [];
  text_of_int = λ x. [];
  text_of_double = λ x. [];
  double_of_text = λ t. some 5;
}

-- A required word with the text of an option's value is lost, too.
lost_word :
    pop_argument (bytes "4") (bytes "4" ∷ bytes "test" ∷ bytes "file" ∷ bytes "4" ∷ [])
    ≡ bytes "test" ∷ bytes "file" ∷ []
unfolding pop_argument text_beq
lost_word = refl
