-- ===== src/Utils/Outcome.antt =====
-- The outcomes of grvy_check_file_path of src/grvy_utils.cpp.
use grvy.Base.{
  List-cases, suc, ◌+◌, ◌≤◌, false, List, [], ◌∷◌, length, All, leb, if◌then◌else◌, ◌≡◌, inl, inr,
  arith,
}
use grvy.Base.Int.{pos, negsuc}
use grvy.Base.Text.{Text, text_beq, bytes}
use grvy.Utils.FileSystem.{FileSystem}
use grvy.Utils.Paths.{tokens_from, tokens, is_absolute, max_depth, check_file_path}
use grvy.Utils.Parents.{
  first_dir, dirs_of, total, total-tokens_from, below-length, IsDir, Creatable, check_parents-made,
  check_parents-Creatable,
}

total-tokens :
    (parents : Text)
    → total (tokens parents) + (if is_absolute parents then 1 else 0) ≤ suc (length parents)
unfolding tokens_from
total-tokens [] = omega arith
total-tokens (c ∷ t) = ground (arith, total-tokens_from [] t, total-tokens_from (c ∷ []) t)

dirs_fit :
    (parents : Text) (ts : List Text)
    → total ts + (if is_absolute parents then 1 else 0) ≤ suc (length parents)
    → All (λ d. length d ≤ length parents) (dirs_of parents ts)
dirs_fit parents [] h = tt
dirs_fit parents (t ∷ ts) h = ground (arith, below-length (first_dir parents t) (length parents) ts)

-- Every name of a directory that grvy_check_file_path passes on fits into its buffer, which has
-- the size of the path: no such name is longer than the parent's path.
pub dirs_of-fit :
    (parents : Text) → All (λ d. length d ≤ length parents) (dirs_of parents (tokens parents))
dirs_of-fit parents = dirs_fit parents (tokens parents) (total-tokens parents)

module _ {S : Type 0} (fs : FileSystem S) (dirname : Text → Text) where
  -- When grvy_check_file_path returns 0 for a path with a parent other than ".", all directories
  -- above the file exist, and there are at most 50.
  pub check_file_path-made :
      (pathname : Text) (s : S)
      → (check_file_path fs dirname pathname s).0 ≡ pos 0
      → text_beq (dirname pathname) (bytes ".") ≡ false
      → (length (tokens (dirname pathname)) ≤ max_depth)
        × All
            (IsDir fs (check_file_path fs dirname pathname s).1)
            (dirs_of (dirname pathname) (tokens (dirname pathname)))
  unfolding check_file_path
  check_file_path-made pathname s h hp =
      let parents = dirname pathname in
      elim (List-cases (tokens parents)) [
        | inl e ↦ ground (arith, e)
        | inr (t, ts, e) ↦
            ground (arith, e, h, hp, check_parents-made fs (first_dir parents t) ts s)
      ]

  outcome-Creatable :
      (pathname : Text) (s : S)
      → Creatable fs
      → text_beq (dirname pathname) (bytes ".") ≡ false
      → ((check_file_path fs dirname pathname s).0
          ≡ (if leb (length (tokens (dirname pathname))) max_depth then pos 0 else negsuc 0))
        × (length (tokens (dirname pathname)) ≤ suc max_depth
            → All
                (IsDir fs (check_file_path fs dirname pathname s).1)
                (dirs_of (dirname pathname) (tokens (dirname pathname))))
  unfolding check_file_path
  outcome-Creatable pathname s c hp =
      let parents = dirname pathname in
      elim (List-cases (tokens parents)) [
        | inl e ↦ ground (arith, e, hp)
        | inr (t, ts, e) ↦
            ground (arith, e, hp, check_parents-Creatable fs (first_dir parents t) ts s c)
      ]

  -- Where directories can always be made, grvy_check_file_path returns 0 if at most 50
  -- directories stand above the file, and -1 if there are more.
  pub check_file_path-Creatable :
      (pathname : Text) (s : S)
      → Creatable fs
      → text_beq (dirname pathname) (bytes ".") ≡ false
      → (check_file_path fs dirname pathname s).0
        ≡ (if leb (length (tokens (dirname pathname))) max_depth then pos 0 else negsuc 0)
  check_file_path-Creatable pathname s c hp = (outcome-Creatable pathname s c hp).0

  -- With 51 directories above the file, grvy_check_file_path reports that the limit is exceeded,
  -- and has made all of them, where directories can always be made.
  pub check_file_path_at_limit :
      (pathname : Text) (s : S)
      → Creatable fs
      → text_beq (dirname pathname) (bytes ".") ≡ false
      → length (tokens (dirname pathname)) ≡ suc max_depth
      → ((check_file_path fs dirname pathname s).0 ≡ negsuc 0)
        × All
            (IsDir fs (check_file_path fs dirname pathname s).1)
            (dirs_of (dirname pathname) (tokens (dirname pathname)))
  check_file_path_at_limit pathname s c hp h =
      let (code, made) = outcome-Creatable pathname s c hp in
      let code_value : (check_file_path fs dirname pathname s).0 ≡ negsuc 0 =
        ground (arith, code, h) in
      (code_value, made (omega (arith, h)))
