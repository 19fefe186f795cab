-- ===== src/Input/Precedence.antt =====
-- Which value a scalar read of src/grvy_input.cpp takes: the file's, the default of the call, or one
-- that is registered.
use grvy.Base.{
  ℕ, Bool, true, false, Option, none, some, ◌≡◌, if◌then◌else◌, ok, arith, Option-cases, inl, inr,
}
use grvy.Base.Map.{find, insert}
use grvy.Base.Map.Laws.{find-insert}
use grvy.Base.Text.{Text, text_key, text_beq, text_beq_iff}
use grvy.Input.Types.{Input, Kind}
use grvy.Input.Calls.{register_var, get_var}
use grvy.Input.Reads.{register_default, or_registered, read_var_default, read_var}

-- The file's value, unless it is the one that stands for none, or else the registered default.
abbrev pub first_of : {T : Type 0} → (T → Bool) → Option T → Option T → Option T
first_of is_none none reg = reg
first_of is_none (some x) reg = if is_none x then reg else some x

-- The code 1 and the value, or 0 and what the read leaves where there is none.
abbrev pub answer : {T : Type 0} → T → Option T → ℕ × T
answer left none = (0, left)
answer left (some x) = (1, x)

module _ {G F D T : Type 0} (k : Kind G F D T) where
  -- Get_Var finds a default that was registered, and the others as they were.
  pub get_var-register_var :
      (var other : Text) (def old : T) (s : Input G F D)
      → get_var k other old (register_var k var def s)
        ≡ (if text_beq var other then (1, def) else get_var k other old s)
  unfolding get_var register_var
  get_var-register_var var other def old s = ground (
    arith,
    k.registry-with (insert var def (k.registry s)) s,
    find-insert var other def (k.registry s),
  )

  -- On an open input, a read without a default returns the code 1 and the file's value of the variable,
  -- unless that equals the value that stands for no default, or else the registered default; where
  -- there is none it returns 0. It changes nothing.
  pub read_var-first :
      (var : Text) (old : T) (g : G) (s : Input G F D)
      → s.initialized ≡ true
      → s.ifile ≡ some g
      → k.eq k.no_default k.no_default ≡ true
      → (left : T) × (read_var k var old s
          ≡ ok (
              let a = answer left (
                first_of
                  (λ x. k.eq x k.no_default)
                  (k.getpot.entry g var)
                  (find var (k.registry s))) in
              (a.0, a.1, s)))
  unfolding read_var read_var_default or_registered register_default get_var
  read_var-first var old g s hi hg he = elim (Option-cases (k.getpot.entry g var)) [
    | inl e ↦
        (k.no_default, (ground (arith, hi, hg, he, e, k.getpot.call-entry g var k.no_default)))
    | inr (x, e) ↦ (x, (ground (arith, hi, hg, he, e, k.getpot.call-entry g var k.no_default)))
  ]

  -- A read with a default, on an open input, returns the code 1 with the file's value or the default,
  -- and registers the default, unless that is the value that stands for none.
  pub read_var_default-never_fails :
      (var : Text) (old def : T) (g : G) (s : Input G F D)
      → s.initialized ≡ true
      → s.ifile ≡ some g
      → k.eq def k.no_default ≡ false
      → k.eq def def ≡ true
      → ((x : T) → k.eq x def ≡ true → x ≡ def)
      → read_var_default k var old def s
        ≡ ok (1, elim (k.getpot.entry g var) [ none ↦ def | some x ↦ x ], register_var k var def s)
  unfolding read_var_default or_registered register_default
  read_var_default-never_fails var old def g s hi hg hd he hs =
      let x = k.getpot.call g var def in
      ground (
        arith,
        hi,
        hg,
        hd,
        he,
        hs x,
        k.getpot.call-entry g var def,
        get_var-register_var var var def x s,
        text_beq_iff var var,
      )
