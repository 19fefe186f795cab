-- ===== src/Utils/Removal.antt =====
-- _GRVY_RemoveAll, its helper and the exit handler of src/grvy_utils.cpp.
use grvy.Base.{Bool, true, List, [], ◌∷◌, ◌≡◌, if◌then◌else◌}
use grvy.Base.Int.{ℤ, pos, negsuc}
use grvy.Base.Text.{Text}
use grvy.Utils.FileSystem.{Entry, missing, unreadable, directory, regular, symlink, special}

-- The kind of an entry that nftw reports.
pub data Flag : Type 0 where
  ftw_f ftw_sl ftw_sln ftw_d ftw_dp ftw_dnr ftw_ns : Flag

-- The system calls. `missing` stands for ENOENT and `unreadable` for any other error of lstat;
-- `walk` is what nftw reports with FTW_DEPTH and FTW_PHYS. What is removed is gone, and stays
-- so when something else is removed.
pub record RemovalCalls (S : Type 0) : Type 0 where
  pub lstat : Text → S → Entry
  pub unlink : Text → S → Bool × S
  pub rmdir : Text → S → Bool × S
  pub walk : Text → S → List (Text × Flag)
  pub unlink-gone : (p : Text) (s : S) → (unlink p s).0 ≡ true → lstat p (unlink p s).1 ≡ missing
  pub rmdir-gone : (p : Text) (s : S) → (rmdir p s).0 ≡ true → lstat p (rmdir p s).1 ≡ missing
  pub unlink-kept : (p q : Text) (s : S) → lstat q s ≡ missing → lstat q (unlink p s).1 ≡ missing
  pub rmdir-kept : (p q : Text) (s : S) → lstat q s ≡ missing → lstat q (rmdir p s).1 ≡ missing

-- The return code of a system call.
abbrev pub code_of : {S : Type 0} → Bool × S → ℤ × S
code_of (ok_call, s) = (if ok_call then pos 0 else negsuc 0, s)

module _ {S : Type 0} (calls : RemovalCalls S) where
  -- `_GRVY_RemoveAll_nftw_helper`.
  unfoldable pub nftw_helper : Text → Flag → S → ℤ × S
  nftw_helper path ftw_f s = code_of (calls.unlink path s)
  nftw_helper path ftw_sl s = code_of (calls.unlink path s)
  nftw_helper path ftw_sln s = code_of (calls.unlink path s)
  nftw_helper path ftw_d s = code_of (calls.rmdir path s)
  nftw_helper path ftw_dp s = code_of (calls.rmdir path s)
  nftw_helper path ftw_dnr s = (pos 0, s)
  nftw_helper path ftw_ns s = (pos 0, s)

  -- nftw calls the helper on each entry, until it returns another code than 0.
  unfoldable pub nftw : List (Text × Flag) → S → ℤ × S
  nftw [] s = (pos 0, s)
  nftw ((path, flag) ∷ entries) s =
      let (status, s') = nftw_helper path flag s in
      let later = nftw entries s' in elim status [ pos n ↦ later | negsuc n ↦ (negsuc n, s') ]

  -- `_GRVY_RemoveAll`.
  unfoldable pub remove_all : Text → S → ℤ × S
  remove_all path s = elim (calls.lstat path s) [
    | missing ↦ (pos 0, s)
    | unreadable ↦ (negsuc 0, s)
    | directory ↦ nftw (calls.walk path s) s
    | regular ↦ code_of (calls.unlink path s)
    | symlink ↦ code_of (calls.unlink path s)
    | special ↦ (negsuc 0, s)
  ]

  -- `_GRVY_create_scratch_dir_atexit_handler`: what is left of the file system. The stack ends
  -- up empty.
  unfoldable pub exit_handler : List Text → S → S
  exit_handler [] s = s
  exit_handler (path ∷ paths) s = exit_handler paths (remove_all path s).1
