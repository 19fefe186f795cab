-- ===== src/Input/Reads.antt =====
-- The reads of src/grvy_input.cpp. A read returns its code, the value that `*value` holds after it,
-- and the state; the value before the call is an argument.
use grvy.Base.{
  ℕ, zero, suc, ◌+◌, Bool, none, some, List, length, set, ltb, refl, if◌then◌else◌, Result, ok,
  fail, bad_access, ◌>>=◌, guard, ◌>>◌,
}
use grvy.Base.Map.{insert}
use grvy.Base.Int.{ℤ, pos, negsuc, beq_ℤ}
use grvy.Base.Text.{Text, text_key, text_beq, bytes}
use grvy.Input.Types.{Input, GetPotCall, Kind}
use grvy.Input.Calls.{register_var, get_var}

-- `*ifile`.
abbrev pub deref : {G F D : Type 0} → Input G F D → Result G
deref s = elim s.ifile [ none ↦ fail bad_access | some g ↦ ok g ]

-- The number of rounds of a loop from 0 to an int.
abbrev pub rounds : ℤ → ℕ
rounds (pos n) = n
rounds (negsuc n) = 0

module _ {G F D T : Type 0} (k : Kind G F D T) where
  -- A default other than the one that stands for none is registered.
  unfoldable pub register_default : Text → T → Input G F D → Input G F D
  register_default var def s = if k.eq def k.no_default then s else register_var k var def s

  -- A value that is the default's is looked up among the registered ones.
  unfoldable pub or_registered : Text → T → T → Input G F D → ℕ × T × Input G F D
  or_registered var def value s =
      if k.eq value def
      then (let (code, x) = get_var k var value s in (code, x, s))
      else (1, value, s)

  -- `Read_Var` with a default.
  unfoldable pub read_var_default : Text → T → T → Input G F D → Result (ℕ × T × Input G F D)
  read_var_default var old def s =
      if s.initialized
      then (do
        g ← deref s
        ok (or_registered var def (k.getpot.call g var def) (register_default var def s)))
      else ok (0, old, s)

  -- `Read_Var` without one.
  unfoldable pub read_var : Text → T → Input G F D → Result (ℕ × T × Input G F D)
  read_var var old s = read_var_default var old k.no_default s

  -- The loop of `Read_Var_Vec` over n elements from the i-th.
  unfoldable pub read_elems : G → Text → T → ℕ → ℕ → List T → Result (ℕ × List T)
  read_elems g var def i zero values = ok (1, values)
  read_elems g var def i (suc n) values =
      let x = k.getpot.call_at g var def (pos i) in
      let rest = read_elems g var def (i + 1) n (set values i x) in
      guard (ltb i (length values)) bad_access
      >> (if k.eq x def then ok (0, set values i x) else rest)

  -- `Read_Var_Vec`, into a buffer, with a default.
  unfoldable pub read_var_vec : Text → List T → ℤ → T → Input G F D → Result (ℕ × List T)
  read_var_vec var values nelems def s =
      if s.initialized
      then (deref s >>= (λ g. read_elems g var def 0 (rounds nelems) values))
      else ok (0, values)

  -- `Read_Var_iVec`.
  unfoldable pub read_var_ivec : Text → T → ℤ → T → Input G F D → Result (ℕ × T)
  read_var_ivec var old elem def s =
      if s.initialized
      then (do
        g ← deref s
        let x = k.getpot.call_at g var def elem
        ok (if k.eq x def then 0 else 1, x))
      else ok (0, old)

-- `Char_Def` and `String_Def`.
abbrev pub char_def : Text
char_def = bytes "unknown"

-- Strings.
abbrev pub string_kind : {G F D : Type 0} → GetPotCall G Text → Kind G F D Text
string_kind getpot = record {
  getpot = getpot;
  eq = text_beq;
  no_default = char_def;
  registry = λ s. s.default_strings;
  with_registry = λ m s. record s { default_strings = m };
  registry-with = λ m s. refl;
  ifile-with = λ m s. refl;
  initialized-with = λ m s. refl;
}

-- Doubles, for the given comparison and `Double_Def`.
abbrev pub double_kind : {G F D : Type 0} → GetPotCall G D → (D → D → Bool) → D → Kind G F D D
double_kind getpot eq double_def = record {
  getpot = getpot;
  eq = eq;
  no_default = double_def;
  registry = λ s. s.default_doubles;
  with_registry = λ m s. record s { default_doubles = m };
  registry-with = λ m s. refl;
  ifile-with = λ m s. refl;
  initialized-with = λ m s. refl;
}

-- Integers.
abbrev pub int_kind : {G F D : Type 0} → GetPotCall G ℤ → Kind G F D ℤ
int_kind getpot = record {
  getpot = getpot;
  eq = beq_ℤ;
  no_default = negsuc 9999998;
  registry = λ s. s.default_ints;
  with_registry = λ m s. record s { default_ints = m };
  registry-with = λ m s. refl;
  ifile-with = λ m s. refl;
  initialized-with = λ m s. refl;
}

module _ {G F D : Type 0} where
  -- `Read_Var` of a char*: a registered string replaces the value that stands for none.
  unfoldable pub read_char : GetPotCall G Text → Text → Text → Input G F D → Result (ℕ × Text)
  read_char getpot var old s =
      if s.initialized
      then (do
        g ← deref s
        let tstring = getpot.call g var char_def
        ok (
            if text_beq tstring char_def
            then get_var (string_kind getpot) var tstring s
            else (1, tstring)))
      else ok (0, old)

  -- `Read_Var` of a bool: its default is always registered.
  unfoldable pub read_bool :
      GetPotCall G Bool → Text → Bool → Bool → Input G F D → Result (ℕ × Bool × Input G F D)
  read_bool getpot var old def s =
      if s.initialized
      then (do
        g ← deref s
        ok (1, getpot.call g var def, record s { default_bools = insert var def s.default_bools }))
      else ok (0, old, s)

  -- `Read_Var_iVec` of a char*.
  unfoldable pub read_char_ivec :
      GetPotCall G Text → Text → Text → ℤ → Input G F D → Result (ℕ × Text)
  read_char_ivec getpot var old elem s =
      if s.initialized
      then (do
        g ← deref s
        let tstring = getpot.call_at g var char_def elem
        ok (if text_beq tstring char_def then 0 else 1, tstring))
      else ok (0, old)
