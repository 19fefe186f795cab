-- ===== src/Timer/Options.antt =====
-- The runtime options of src/grvy_timer.cpp.
use grvy.Base.{ℕ, Bool, true, false, none, some, List, [], ◌≡◌, if◌then◌else◌, arith}
use grvy.Base.Map.{find, insert, modify}
use grvy.Base.Map.Laws.{find-modify}
use grvy.Base.Text.{Text, bytes, text_beq, text_key, text_beq_iff}

-- The defaults that the constructor sets.
unfoldable pub default_options : List (Text × Bool)
default_options = insert (bytes "output_printenv") false (
    insert (bytes "output_comments") false (
      insert (bytes "dump_files") true (
        insert (bytes "output_subtimer_raw") false
          (insert (bytes "output_totaltimer_raw") true (insert (bytes "output_stdout") true [])))))

-- `SetOption`, which returns 0 in both cases: an unknown option is ignored.
unfoldable pub set_option : Text → Bool → List (Text × Bool) → ℕ × List (Text × Bool)
set_option option flag options = elim (find option options) [
  | none ↦ (0, options)
  | some old ↦ (0, modify option (λ x. flag) options)
]

-- `options[option]`: false for one that is not there.
abbrev pub is_set : Text → List (Text × Bool) → Bool
is_set option options = elim (find option options) [ none ↦ false | some x ↦ x ]

-- A known option has the flag that it was set to, an unknown one stays unset, and the others keep
-- theirs.
pub is_set-set_option :
    (option other : Text) (flag : Bool) (options : List (Text × Bool))
    → is_set other (set_option option flag options).1 ≡ (
        if text_beq option other
        then (elim (find option options) [ none ↦ false | some x ↦ flag ])
        else is_set other options)
unfolding set_option
is_set-set_option option other flag options =
    ground (arith, find-modify option other (λ x. flag) options, text_beq_iff option other)
