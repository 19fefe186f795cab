-- ===== src/Utils/Tests.antt =====
-- Runs of the utilities of src/grvy_utils.cpp on small file systems.
use grvy.Base.{
  ℕ, zero, suc, ◌≤◌, true, some, List, [], ◌∷◌, ◌++◌, length, All, replicate, ◌≡◌, ◌⊎◌, inl, inr,
  refl, if◌then◌else◌, arith,
}
use grvy.Base.Int.{pos}
use grvy.Base.Text.{Text, bytes, text_beq}
use grvy.Utils.FileSystem.{missing, directory, is_listed, directories}
use grvy.Utils.Paths.{
  tokens_from, tokens, max_depth, check_dir, check_rest, check_parents, check_file_path,
}
use grvy.Utils.Parents.{dirs_of, IsDir}
use grvy.Utils.Outcome.{check_file_path-made}
use grvy.Utils.Removal.{Flag, ftw_dp, RemovalCalls, nftw_helper, nftw, remove_all}
use grvy.Utils.Removed.{IsGone, remove_all-IsGone}
use grvy.Utils.Scratch.{
  letter_x, num_required, check_xs, verify_string_ends_with_6_xs, ScratchCalls, Scratch,
  make_unique, create_unique_dir, push_path, keep_path, create_scratch_dir, at_exit,
}
use grvy.Utils.Cleaned.{made_dirs, scratch_cleaned}

-- dirname of the one path that is used.
abbrev parent_of : Text → Text
parent_of p = bytes "/a/b"

abbrev file : Text
file = bytes "/a/b/c"

is_listed-kinds :
    (p : Text) (s : List Text) → (is_listed p s ≡ missing) ⊎ (is_listed p s ≡ directory)
is_listed-kinds p [] = inl refl
is_listed-kinds p (q ∷ s) = elim (is_listed-kinds p s) [
  | inl e ↦ ground (arith, e)
  | inr e ↦ ground (arith, e)
]

check_file_path-made_example :
    (length (tokens (parent_of file)) ≤ max_depth)
    × All
        (IsDir directories (check_file_path directories parent_of file []).1)
        (dirs_of (bytes "/a/b") (tokens (bytes "/a/b")))
unfolding check_file_path check_parents check_rest check_dir tokens_from text_beq
check_file_path-made_example = check_file_path-made directories parent_of file [] refl refl

abbrev many : ℕ → Text
many zero = []
many (suc n) = 47 ∷ 97 ∷ many n

-- A file system of empty directories. The first byte 0 of a name stands for one that cannot be read.
abbrev drop_entry : Text → List Text → List Text
drop_entry p [] = []
drop_entry p (q ∷ s) = if text_beq q p then drop_entry p s else q ∷ drop_entry p s

is_listed-drop : (p : Text) (s : List Text) → is_listed p (drop_entry p s) ≡ missing
is_listed-drop p [] = refl
is_listed-drop p (q ∷ s) = ground (arith, is_listed-drop p s)

is_listed-drop_kept :
    (p q : Text) (s : List Text) → is_listed q s ≡ missing → is_listed q (drop_entry p s) ≡ missing
is_listed-drop_kept p q [] h = refl
is_listed-drop_kept p q (r ∷ s) h = ground (arith, h, is_listed-drop_kept p q s)

abbrev empty_dirs : Flag → RemovalCalls (List Text)
empty_dirs flag = record {
  lstat = is_listed;
  unlink = λ p s. (true, drop_entry p s);
  rmdir = λ p s. (true, drop_entry p s);
  walk = λ p s. (p, flag) ∷ [];
  unlink-gone = λ p s h. is_listed-drop p s;
  rmdir-gone = λ p s h. is_listed-drop p s;
  unlink-kept = λ p q s h. is_listed-drop_kept p q s h;
  rmdir-kept = λ p q s h. is_listed-drop_kept p q s h;
}

abbrev dir_a : Text
dir_a = bytes "a"

remove_all-IsGone_example :
    IsGone (empty_dirs ftw_dp) (remove_all (empty_dirs ftw_dp) dir_a (dir_a ∷ [])).1 dir_a
unfolding remove_all nftw nftw_helper text_beq
remove_all-IsGone_example =
    remove_all-IsGone (empty_dirs ftw_dp) dir_a (dir_a ∷ []) (inr ([], refl)) refl

abbrev scratch_calls : ScratchCalls (List Text)
scratch_calls = record {
  mkdtemp = λ name s. (some name, name ∷ s);
  strdup = λ s. (true, s);
  atexit = λ s. (pos 0, s);
}

abbrev template : Text
template = bytes "t" ++ replicate num_required letter_x

abbrev one_scratch : Scratch (List Text)
one_scratch = record { system = template ∷ []; paths = template ∷ []; handlers = 1 }

scratch_cleaned_example :
    All (IsGone (empty_dirs ftw_dp) (at_exit (empty_dirs ftw_dp) one_scratch)) (
      made_dirs scratch_calls
        (some template ∷ [])
        (record { system = []; paths = []; handlers = 0 }))
unfolding create_scratch_dir create_unique_dir make_unique push_path keep_path
    verify_string_ends_with_6_xs check_xs remove_all nftw nftw_helper text_beq
scratch_cleaned_example =
    scratch_cleaned scratch_calls (empty_dirs ftw_dp) (some template ∷ []) [] one_scratch refl
      (inr ([], refl), refl, tt)
