-- ===== src/Input/Types.antt =====
-- The state of GRVY_Input_Class in src/grvy_input.cpp, and what it uses of GetPot.
use grvy.Base.{ℕ, Bool, Option, none, some, List, ◌≡◌}
use grvy.Base.Int.{ℤ}
use grvy.Base.Text.{Text}

-- The members of GRVY_Input_ClassImp: G stands for a GetPot object, F and D for float and double.
-- `ifile` is none while it points to no object. The text between comment_start and comment_end is
-- GetPot's to leave out.
pub record Input (G F D : Type 0) : Type 0 where
  pub ifile : Option G
  pub initialized : Bool
  pub default_ints : List (Text × ℤ)
  pub default_floats : List (Text × F)
  pub default_doubles : List (Text × D)
  pub default_bools : List (Text × Bool)
  pub default_strings : List (Text × Text)

-- GetPot's constructor from the text of a file or stream, the number of its arguments, and its
-- print, which puts a prefix before each line.
pub record GetPotFile (G : Type 0) : Type 0 where
  pub parse : Text → G
  pub size : G → ℕ
  pub print : G → Text → Text

-- GetPot's call operators at a type: the value of a variable, or of its i-th element, or the
-- given default where the file has none.
pub record GetPotCall (G T : Type 0) : Type 0 where
  pub call : G → Text → T → T
  pub call_at : G → Text → T → ℤ → T
  pub entry : G → Text → Option T
  pub entry_at : G → Text → ℤ → Option T
  pub call-entry :
      (g : G) (var : Text) (def : T)
      → call g var def ≡ elim (entry g var) [ none ↦ def | some x ↦ x ]
  pub call_at-entry :
      (g : G) (var : Text) (def : T) (i : ℤ)
      → call_at g var def i ≡ elim (entry_at g var i) [ none ↦ def | some x ↦ x ]

-- What the template functions know of the type T that they read: its comparison, the value that
-- stands for no default (`Get_Default`), and the registry of its defaults.
pub record Kind (G F D T : Type 0) : Type 0 where
  pub getpot : GetPotCall G T
  pub eq : T → T → Bool
  pub no_default : T
  pub registry : Input G F D → List (Text × T)
  pub with_registry : List (Text × T) → Input G F D → Input G F D
  pub registry-with : (m : List (Text × T)) (s : Input G F D) → registry (with_registry m s) ≡ m
  pub ifile-with : (m : List (Text × T)) (s : Input G F D) → (with_registry m s).ifile ≡ s.ifile
  pub initialized-with :
      (m : List (Text × T)) (s : Input G F D) → (with_registry m s).initialized ≡ s.initialized
