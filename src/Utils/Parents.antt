-- ===== src/Utils/Parents.antt =====
-- What grvy_check_file_path of src/grvy_utils.cpp makes of the directories above a file.
use grvy.Base.{
  Bool-cases, Option-cases, ℕ, suc, ◌+◌, ◌≤◌, ◌<◌, some, List, [], ◌∷◌, ◌++◌, length, All, ltb, leb,
  if◌then◌else◌, ◌≡◌, ◌⊎◌, inl, inr, refl, arith, length-append,
}
use grvy.Base.Int.{pos, negsuc}
use grvy.Base.Text.{Text}
use grvy.Utils.FileSystem.{directory, FileSystem}
use grvy.Utils.Paths.{
  slash, tokens_from, is_absolute, max_depth, check_dir, check_rest, check_parents,
}

-- The directories dir/t1, dir/t1/t2, ...
abbrev pub below : Text → List Text → List Text
below dir [] = []
below dir (token ∷ rest) = (dir ++ slash ∷ token) ∷ below (dir ++ slash ∷ token) rest

-- All directories above a file, given the path of its parent.
abbrev pub first_dir : Text → Text → Text
first_dir parents token = if is_absolute parents then slash ∷ token else token

abbrev pub dirs_of : Text → List Text → List Text
dirs_of parents [] = []
dirs_of parents (token ∷ rest) = first_dir parents token ∷ below (first_dir parents token) rest

abbrev pub total : List Text → ℕ
total [] = 0
total (t ∷ ts) = suc (length t) + total ts

-- Tokens with one slash each fit into the text.
pub total-tokens_from : (word t : Text) → total (tokens_from word t) ≤ suc (length word + length t)
unfolding tokens_from
total-tokens_from [] [] = omega arith
total-tokens_from (c ∷ word) [] = omega arith
total-tokens_from [] (c ∷ t) = ground (arith, total-tokens_from [] t, total-tokens_from (c ∷ []) t)
total-tokens_from (d ∷ word) (c ∷ t) = ground (
  arith,
  total-tokens_from [] t,
  total-tokens_from (d ∷ word ++ c ∷ []) t,
  length-append word (c ∷ []),
)

pub below-length :
    (dir : Text) (n : ℕ) (ts : List Text)
    → length dir + total ts ≤ n
    → All (λ d. length d ≤ n) (below dir ts)
below-length dir n [] h = tt
below-length dir n (t ∷ ts) h = (
  omega (arith, length-append dir (slash ∷ t)),
  below-length (dir ++ slash ∷ t) n ts (omega (arith, length-append dir (slash ∷ t))),
)

module _ {S : Type 0} (fs : FileSystem S) where
  abbrev pub IsDir : S → Text → Type 0
  IsDir s p = fs.stat p s ≡ directory

  check_dir-kept : (p q : Text) (s : S) → IsDir s q → IsDir (check_dir fs p s).1 q
  unfolding check_dir
  check_dir-kept p q s h = ground (arith, h, fs.mkdir-kept p q s)

  check_dir-made : (p : Text) (s : S) → (check_dir fs p s).0 ≡ pos 0 → IsDir (check_dir fs p s).1 p
  unfolding check_dir
  check_dir-made p s h = ground (arith, fs.mkdir-made p s)

  check_dir-codes :
      (p : Text) (s : S) → ((check_dir fs p s).0 ≡ pos 0) ⊎ ((check_dir fs p s).0 ≡ negsuc 0)
  unfolding check_dir
  check_dir-codes p s = ground arith

  check_rest-kept :
      (dir q : Text) (k : ℕ) (ts : List Text) (s : S)
      → IsDir s q
      → IsDir (check_rest fs dir k ts s).1 q
  unfolding check_rest
  check_rest-kept dir q k [] s h = h
  check_rest-kept dir q k (t ∷ ts) s h =
      let longer = dir ++ slash ∷ t in
      ground (
        arith,
        h,
        check_dir-kept longer q s,
        check_rest-kept longer q (k + 1) ts (check_dir fs longer s).1,
        check_dir-codes longer s,
      )

  -- A loop that no directory stopped, within the limit.
  check_rest-made :
      (dir : Text) (k d : ℕ) (ts : List Text) (s : S)
      → k + length ts ≤ max_depth
      → (check_rest fs dir k ts s).0 ≡ some d
      → (d ≡ k + length ts) × All (IsDir (check_rest fs dir k ts s).1) (below dir ts)
  unfolding check_rest
  check_rest-made dir k d [] s hk h = ground arith
  check_rest-made dir k d (t ∷ ts) s hk h =
      let longer = dir ++ slash ∷ t in
      let s' = (check_dir fs longer s).1 in
      ground (
        arith,
        h,
        check_dir-made longer s,
        check_dir-codes longer s,
        check_rest-kept longer longer (k + 1) ts s',
        check_rest-made longer (k + 1) d ts s',
      )

  -- A loop that no directory stopped, beyond the limit.
  check_rest-deep :
      (dir : Text) (k d : ℕ) (ts : List Text) (s : S)
      → k ≤ max_depth
      → max_depth ≤ k + length ts
      → (check_rest fs dir k ts s).0 ≡ some d
      → d ≡ max_depth
  unfolding check_rest
  check_rest-deep dir k d [] s hk hl h = ground arith
  check_rest-deep dir k d (t ∷ ts) s hk hl h =
      let longer = dir ++ slash ∷ t in
      ground (
        arith,
        h,
        check_dir-codes longer s,
        check_rest-deep longer (k + 1) d ts (check_dir fs longer s).1,
      )

  abbrev pub Creatable : Type 0
  Creatable = (p : Text) (s : S) → (check_dir fs p s).0 ≡ pos 0

  check_rest-some :
      (dir : Text) (k : ℕ) (ts : List Text) (s : S)
      → Creatable
      → (d : ℕ) × ((check_rest fs dir k ts s).0 ≡ some d)
  unfolding check_rest
  check_rest-some dir k [] s c = (k, refl)
  check_rest-some dir k (t ∷ ts) s c =
      let longer = dir ++ slash ∷ t in
      let (d, h) = check_rest-some longer (k + 1) ts (check_dir fs longer s).1 c in
      elim (Bool-cases (ltb k max_depth)) [
        | inl e ↦ (d, ground (arith, e, h, c longer s))
        | inr e ↦ (k, ground (arith, e))
      ]

  -- The first directory and those below it.
  pub check_parents-made :
      (dir : Text) (ts : List Text) (s : S)
      → (check_parents fs dir ts s).0 ≡ pos 0
      → (length ts < max_depth) × All (IsDir (check_parents fs dir ts s).1) (dir ∷ below dir ts)
  unfolding check_parents
  check_parents-made dir ts s h =
      let s1 = (check_dir fs dir s).1 in
      elim (Option-cases (check_rest fs dir 0 ts s1).0) [
        | inl e ↦ ground (arith, h, e, check_dir-codes dir s)
        | inr (d, e) ↦ ground (
          arith,
          h,
          e,
          check_dir-codes dir s,
          check_dir-made dir s,
          check_rest-kept dir dir 0 ts s1,
          check_rest-made dir 0 d ts s1,
          check_rest-deep dir 0 d ts s1,
        )
      ]

  pub check_parents-Creatable :
      (dir : Text) (ts : List Text) (s : S)
      → Creatable
      → ((check_parents fs dir ts s).0 ≡ (if leb max_depth (length ts) then negsuc 0 else pos 0))
        × (length ts ≤ max_depth → All (IsDir (check_parents fs dir ts s).1) (dir ∷ below dir ts))
  unfolding check_parents
  check_parents-Creatable dir ts s c =
      let s1 = (check_dir fs dir s).1 in
      let (d, e) = check_rest-some dir 0 ts s1 c in
      ground (
        arith,
        e,
        c dir s,
        check_dir-made dir s,
        check_rest-kept dir dir 0 ts s1,
        check_rest-made dir 0 d ts s1,
        check_rest-deep dir 0 d ts s1,
      )
