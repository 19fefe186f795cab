-- ===== src/Utils/Paths.antt =====
-- grvy_check_file_path and _GRVY_CheckDir of src/grvy_utils.cpp. dirname is a parameter.
use grvy.Base.{
  ℕ, ◌+◌, Bool, false, Option, none, some, List, [], ◌∷◌, ◌++◌, ltb, leb, ◌==◌, if◌then◌else◌,
}
use grvy.Base.Int.{ℤ, pos, negsuc}
use grvy.Base.Text.{Text, text_beq, bytes}
use grvy.Utils.FileSystem.{missing, unreadable, directory, regular, symlink, special, FileSystem}

-- The byte '/'.
abbrev pub slash : ℕ
slash = 47

-- The strings that successive calls of strtok with "/" return; `word` is read already.
abbrev pub end_word : Text → List Text → List Text
end_word [] rest = rest
end_word (c ∷ t) rest = (c ∷ t) ∷ rest

unfoldable pub tokens_from : Text → Text → List Text
tokens_from word [] = end_word word []
tokens_from word (c ∷ t) =
    if c == slash then end_word word (tokens_from [] t) else tokens_from (word ++ c ∷ []) t

abbrev pub tokens : Text → List Text
tokens t = tokens_from [] t

-- `strncmp(parents,"/",1) == 0`.
abbrev pub is_absolute : Text → Bool
is_absolute [] = false
is_absolute (c ∷ t) = c == slash

-- `const int MAX_DEPTH = 50`.
abbrev pub max_depth : ℕ
max_depth = 50

module _ {S : Type 0} (fs : FileSystem S) where
  -- `_GRVY_CheckDir`: the return code, and the state of the file system.
  unfoldable pub check_dir : Text → S → ℤ × S
  check_dir name s = elim (fs.stat name s) [
    | missing ↦ let (made, s') = fs.mkdir name s in (if made then pos 0 else negsuc 0, s')
    | unreadable ↦ let (made, s') = fs.mkdir name s in (if made then pos 0 else negsuc 0, s')
    | directory ↦ (pos 0, s)
    | regular ↦ (negsuc 0, s)
    | symlink ↦ (negsuc 0, s)
    | special ↦ (negsuc 0, s)
  ]

  -- The while loop over the parents below the first, from `dirstring` and `depth`: none if a
  -- directory is refused, else the depth at the end.
  unfoldable pub check_rest : Text → ℕ → List Text → S → Option ℕ × S
  check_rest dirstring depth [] s = (some depth, s)
  check_rest dirstring depth (token ∷ rest) s =
      let longer = dirstring ++ slash ∷ token in
      let (code, s') = check_dir longer s in
      let below = check_rest longer (depth + 1) rest s' in
      if ltb depth max_depth
      then (elim code [ pos _ ↦ below | negsuc _ ↦ (none, s') ])
      else (some depth, s)

  -- The part of `grvy_check_file_path` that has a first token.
  unfoldable pub check_parents : Text → List Text → S → ℤ × S
  check_parents first rest s =
      let (code, s') = check_dir first s in
      elim code [
        | negsuc _ ↦ (negsuc 0, s')
        | pos _ ↦
            let (depth, s'') = check_rest first 0 rest s' in
            elim depth [
              | none ↦ (negsuc 0, s'')
              | some d ↦ (if leb max_depth d then negsuc 0 else pos 0, s'')
            ]
      ]

  unfoldable pub check_file_path : (Text → Text) → Text → S → ℤ × S
  check_file_path dirname pathname s =
      let parents = dirname pathname in
      if text_beq parents (bytes ".") then (pos 0, s) else elim (tokens parents) [
        | [] ↦ (pos 0, s)
        | token ∷ rest ↦ check_parents (if is_absolute parents then slash ∷ token else token) rest s
      ]
