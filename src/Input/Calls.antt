-- ===== src/Input/Calls.antt =====
-- Opening and closing an input in src/grvy_input.cpp, and its registered defaults.
use grvy.Base.{ℕ, Bool, true, false, Option, none, some, [], ◌∷◌, leb, ◌==◌, ◌||◌, if◌then◌else◌}
use grvy.Base.Map.{find, insert}
use grvy.Base.Text.{Text, text_key}
use grvy.Input.Types.{Input, GetPotFile, Kind}

-- The constructor.
abbrev pub new_input : {G F D : Type 0} → Input G F D
new_input = record {
  ifile = none;
  initialized = false;
  default_ints = [];
  default_floats = [];
  default_doubles = [];
  default_bools = [];
  default_strings = [];
}

-- The loop over the characters of a file: is one of them '\x0d'?
unfoldable pub has_dos_newline : Text → Bool
has_dos_newline [] = false
has_dos_newline (c ∷ t) = (c == 13) || has_dos_newline t

module _ {G F D : Type 0} (getpot : GetPotFile G) where
  -- The end of `Open` and `Load`: the object stays also where the input is refused.
  unfoldable pub take_input : Text → Input G F D → ℕ × Input G F D
  take_input text s =
      let g = getpot.parse text in
      if leb (getpot.size g) 1
      then (0, record s { ifile = some g })
      else (1, record s { ifile = some g; initialized = true })

  -- `Open`, of a file with the given text, or of one that fopen cannot open.
  unfoldable pub open_input : Option Text → Input G F D → ℕ × Input G F D
  open_input file s = if s.initialized then (0, s) else elim file [
    | none ↦ (0, s)
    | some text ↦ if has_dos_newline text then (0, s) else take_input text s
  ]

  -- `Load`, of a stream.
  unfoldable pub load_input : Text → Input G F D → ℕ × Input G F D
  load_input text s = if s.initialized then (0, s) else take_input text s

  -- `Close`. The object is deleted; the defaults stay.
  unfoldable pub close_input : Input G F D → ℕ × Input G F D
  close_input s = (1, if s.initialized then record s { initialized = false; ifile = none } else s)

module _ {G F D T : Type 0} (k : Kind G F D T) where
  -- `Register_Var`.
  unfoldable pub register_var : Text → T → Input G F D → Input G F D
  register_var var def s = k.with_registry (insert var def (k.registry s)) s

  -- `Get_Var`: the return code, and the value, which is the old one where none is registered.
  unfoldable pub get_var : Text → T → Input G F D → ℕ × T
  get_var var old s = elim (find var (k.registry s)) [ none ↦ (0, old) | some x ↦ (1, x) ]
