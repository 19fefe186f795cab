-- ===== src/Input/Dump.antt =====
-- The dumps of src/grvy_input.cpp. How numbers are written is left to the stream: `show` is what it
-- writes for a value.
use grvy.Base.{ℕ, Bool, true, false, List, [], ◌∷◌, ◌++◌, if◌then◌else◌, Result, ok, ◌>>=◌}
use grvy.Base.Int.{ℤ}
use grvy.Base.Text.{Text, bytes}
use grvy.Input.Types.{Input, GetPotFile}
use grvy.Input.Reads.{deref}

-- One line for each default of a registry.
unfoldable pub reg_lines : {T : Type 0} → (T → Text) → Text → List (Text × T) → Text
reg_lines show prefix [] = []
reg_lines show prefix ((name, x) ∷ m) =
    prefix ++ name ++ bytes "=" ++ show x ++ 10 ∷ [] ++ reg_lines show prefix m

abbrev pub show_bool : Bool → Text
show_bool true = bytes "1"
show_bool false = bytes "0"

module _ {G F D : Type 0} (getpot : GetPotFile G) (show_int : ℤ → Text) (show_float : F → Text)
    (show_double : D → Text) where
  -- `PrintRegVars`: what it writes.
  unfoldable pub print_reg_vars : Text → Input G F D → Text
  print_reg_vars prefix s =
      prefix
      ++ bytes "[GRVY Registered Variable Default Values]"
      ++ 10 ∷ []
      ++ reg_lines show_int prefix s.default_ints
      ++ reg_lines show_float prefix s.default_floats
      ++ reg_lines show_double prefix s.default_doubles
      ++ reg_lines (λ t. t) prefix s.default_strings
      ++ reg_lines show_bool prefix s.default_bools
      ++ 10 ∷ []

  -- `Fdump` to the stream or the file whose text so far is given. Without a prefix it is empty.
  unfoldable pub fdump : Text → Text → Input G F D → Result (ℕ × Text)
  fdump prefix out s =
      if s.initialized
      then (do g ← deref s; ok (1, out ++ getpot.print g prefix ++ print_reg_vars prefix s))
      else ok (0, out)
