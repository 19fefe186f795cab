-- ===== src/Interface/Fortran/Strings.antt =====
-- Texts between Fortran and src/grvy_input_interface.cpp.
use grvy.Base.{
  ℕ, zero, suc, ◌-◌, true, false, Option, none, some, [], ◌∷◌, ◌++◌, length, leb, ◌==◌, ◌≡◌, refl,
  ap, if◌then◌else◌, ok, fail, bad_access, arith, Option-cases, inl, inr,
}
use grvy.Base.Int.{ℤ, pos, ◌-ℤ◌}
use grvy.Base.Map.{find}
use grvy.Base.Map.Laws.{find-insert}
use grvy.Base.Text.{Text, text_beq, text_beq_iff, text_key}
use grvy.Input.Types.{Input, GetPotCall}
use grvy.Input.Calls.{get_var, register_var}
use grvy.Input.Reads.{char_def, read_char, read_char_ivec}
use grvy.Input.Precedence.{first_of, answer}
use grvy.Interface.Parser.{
  verify_parser_allocated, input_fread_char, input_fread_char_ivec, input_register,
}
use grvy.Interface.Fortran.{
  f2c_char, copy_chars, blanks, fill_storage, fortran_fread_char, fortran_register_char,
  fortran_register_get_char, fortran_fread_char_ivec,
}

-- The places of a storage from the n-th on.
abbrev pub after : ℕ → Text → Text
after zero t = t
after (suc n) [] = []
after (suc n) (c ∷ t) = after n t

copy_chars-after :
    (t value : Text)
    → copy_chars t value ≡ (
        if leb (length t) (length value) then ok (t ++ after (length t) value) else fail bad_access)
unfolding copy_chars
copy_chars-after [] value = ground arith
copy_chars-after (c ∷ t) [] = ground arith
copy_chars-after (c ∷ t) (v ∷ value) = ground (arith, copy_chars-after t value)

after-blanks : (m n : ℕ) → after m (blanks n) ≡ blanks (n - m)
after-blanks zero n = ground arith
after-blanks (suc m) zero = ground arith
after-blanks (suc m) (suc n) = ground (arith, after-blanks m n)

length-blanks : (n : ℕ) → length (blanks n) ≡ n
length-blanks zero = refl
length-blanks (suc n) = ap suc (length-blanks n)

-- The storage after a read: the text with blanks behind it and the code, or blanks only and 0 where
-- the text is longer than the storage.
abbrev pub stored : ℕ → ℕ → Text → ℕ × Text
stored storage code t =
    if leb (length t) storage then (code, t ++ blanks (storage - length t)) else (0, blanks storage)

fill_storage-stored :
    (storage code : ℕ) (t : Text) → fill_storage storage code t ≡ ok (stored storage code t)
unfolding fill_storage
fill_storage-stored storage code t = ground (
  arith,
  copy_chars-after t (blanks storage),
  after-blanks (length t) storage,
  length-blanks storage,
)

-- No character is 0.
abbrev pub IsChars : Text → Type 0
IsChars [] = Unit
IsChars (c ∷ t) = ((c == 0) ≡ false) × IsChars t

f2c_char-same : (t : Text) → IsChars t → f2c_char t ≡ t
unfolding f2c_char
f2c_char-same [] h = refl
f2c_char-same (c ∷ t) h = ground (arith, h, f2c_char-same t h.1)

-- The element of the file, unless it is the text that stands for none: then the text that stands for
-- none, and the code 0.
abbrev pub element : Option Text → ℕ × Text
element none = (0, char_def)
element (some x) = if text_beq x char_def then (0, char_def) else (1, x)

module _ {G F D : Type 0} (chars : GetPotCall G Text) where
  -- The registered text stands in for one that the file has not.
  read_registered :
      (var : Text) (storage : ℕ) (g : G) (s : Input G F D)
      → s.initialized ≡ true
      → s.ifile ≡ some g
      → chars.call g (f2c_char var) char_def ≡ char_def
      → fortran_fread_char chars var storage (some s)
        ≡ ok (
            let a = answer char_def (find (f2c_char var) s.default_strings) in
            let r = stored storage a.0 a.1 in (r.0, r.1, some s))
  unfolding fortran_fread_char input_fread_char read_char get_var verify_parser_allocated
  read_registered var storage g s hi hg he =
      let same = text_beq_iff char_def char_def in
      elim (Option-cases (find (f2c_char var) s.default_strings)) [
        | inl r ↦ ground (arith, hi, hg, he, r, same, fill_storage-stored storage 0 char_def)
        | inr (t, r) ↦ ground (arith, hi, hg, he, r, same, fill_storage-stored storage 1 t)
      ]

  -- The reads of Fortran on an open input. A read by name copies the file's text, or the registered one,
  -- with blanks behind it to the end of the storage; a read of element i copies the file's i-th element,
  -- counted from 1. Where there is none the flag is 0 and the text is "unknown". A text longer than the
  -- storage gives the flag 0 and blanks. Names end at the first 0.
  pub fortran_fread_char-stored :
      (var : Text) (storage : ℕ) (elem : ℤ) (g : G) (s : Input G F D)
      → s.initialized ≡ true
      → s.ifile ≡ some g
      → (fortran_fread_char chars var storage (some s)
          ≡ ok (
              let a = answer char_def (
                first_of
                  (λ x. text_beq x char_def)
                  (chars.entry g (f2c_char var))
                  (find (f2c_char var) s.default_strings)) in
              let r = stored storage a.0 a.1 in (r.0, r.1, some s)))
        × (fortran_fread_char_ivec chars var storage elem (some s)
            ≡ ok (
                let a = element (chars.entry_at g (f2c_char var) (elem -ℤ pos 1)) in
                let r = stored storage a.0 a.1 in (r.0, r.1, some s)))
  unfolding fortran_fread_char fortran_fread_char_ivec input_fread_char input_fread_char_ivec
      read_char read_char_ivec get_var verify_parser_allocated
  fortran_fread_char-stored var storage elem g s hi hg =
      let name = f2c_char var in
      let i = elem -ℤ pos 1 in
      (
        elim (Option-cases (chars.entry g name)) [
          | inl e ↦
              ground
                (arith, e, chars.call-entry g name char_def, read_registered var storage g s hi hg)
          | inr (x, e) ↦ ground (
            arith,
            hi,
            hg,
            e,
            text_beq_iff x char_def,
            fill_storage-stored storage 1 x,
            chars.call-entry g name char_def,
            read_registered var storage g s hi hg,
          )
        ],
        elim (Option-cases (chars.entry_at g name i)) [
          | inl e ↦ ground (
            arith,
            hi,
            hg,
            e,
            text_beq_iff char_def char_def,
            fill_storage-stored storage 0 char_def,
            chars.call_at-entry g name char_def i,
          )
          | inr (x, e) ↦ ground (
            arith,
            hi,
            hg,
            e,
            text_beq_iff x char_def,
            fill_storage-stored storage 0 char_def,
            fill_storage-stored storage 1 x,
            chars.call_at-entry g name char_def i,
          )
        ],
      )

  -- A text without 0 that Fortran registers, from the start of the program or later, comes back from
  -- the shared input with the flag 1, in front of what the storage held behind it. Storage that is too
  -- short for it is written past its end.
  pub fortran_register_get_char-register :
      (var value storage : Text) (p : Option (Input G F D))
      → IsChars value
      → let p' = (fortran_register_char chars var value p).1 in
        fortran_register_get_char chars var storage p' ≡ (
          if leb (length value) (length storage)
          then ok (1, value ++ after (length value) storage, p')
          else fail bad_access)
  unfolding fortran_register_get_char fortran_register_char input_register get_var register_var
  fortran_register_get_char-register var value storage p h =
      let s = verify_parser_allocated p in
      let name = f2c_char var in
      ground (
        arith,
        f2c_char-same value h,
        find-insert name name value s.default_strings,
        text_beq_iff name name,
        copy_chars-after value storage,
      )
