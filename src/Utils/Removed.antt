-- ===== src/Utils/Removed.antt =====
-- What _GRVY_RemoveAll of src/grvy_utils.cpp leaves of what it is given.
use grvy.Base.{List, [], ◌∷◌, ◌++◌, All, ◌≡◌, ◌≢◌, ◌⊎◌, inl, inr, arith}
use grvy.Base.Int.{pos}
use grvy.Base.Text.{Text}
use grvy.Utils.FileSystem.{missing, directory}
use grvy.Utils.Removal.{
  Flag, ftw_f, ftw_sl, ftw_sln, ftw_d, ftw_dp, ftw_dnr, ftw_ns, RemovalCalls, nftw_helper, nftw,
  remove_all, exit_handler,
}

module _ {S : Type 0} (calls : RemovalCalls S) where
  abbrev pub IsGone : S → Text → Type 0
  IsGone s p = calls.lstat p s ≡ missing

  -- nftw can read the directory p, and so reports it last, as a directory that it has been through.
  abbrev pub IsReadable : Text → S → Type 0
  IsReadable p s =
      (calls.lstat p s ≢ directory)
      ⊎ ((before : List (Text × Flag)) × (calls.walk p s ≡ before ++ (p, ftw_dp) ∷ []))

  nftw_helper-kept :
      (p q : Text) (f : Flag) (s : S) → IsGone s q → IsGone (nftw_helper calls p f s).1 q
  unfolding nftw_helper
  nftw_helper-kept p q ftw_f s h = calls.unlink-kept p q s h
  nftw_helper-kept p q ftw_sl s h = calls.unlink-kept p q s h
  nftw_helper-kept p q ftw_sln s h = calls.unlink-kept p q s h
  nftw_helper-kept p q ftw_d s h = calls.rmdir-kept p q s h
  nftw_helper-kept p q ftw_dp s h = calls.rmdir-kept p q s h
  nftw_helper-kept p q ftw_dnr s h = h
  nftw_helper-kept p q ftw_ns s h = h

  nftw-kept :
      (q : Text) (entries : List (Text × Flag)) (s : S)
      → IsGone s q
      → IsGone (nftw calls entries s).1 q
  unfolding nftw
  nftw-kept q [] s h = h
  nftw-kept q ((p, f) ∷ entries) s h =
      ground (arith, h, nftw_helper-kept p q f s, nftw-kept q entries (nftw_helper calls p f s).1)

  nftw-IsGone :
      (p : Text) (before : List (Text × Flag)) (s : S)
      → (nftw calls (before ++ (p, ftw_dp) ∷ []) s).0 ≡ pos 0
      → IsGone (nftw calls (before ++ (p, ftw_dp) ∷ []) s).1 p
  unfolding nftw nftw_helper
  nftw-IsGone p [] s h = ground (arith, h, calls.rmdir-gone p s)
  nftw-IsGone p ((q, f) ∷ before) s h =
      ground (arith, h, nftw-IsGone p before (nftw_helper calls q f s).1)

  pub remove_all-kept : (p q : Text) (s : S) → IsGone s q → IsGone (remove_all calls p s).1 q
  unfolding remove_all
  remove_all-kept p q s h =
      ground (arith, h, nftw-kept q (calls.walk p s) s, calls.unlink-kept p q s)

  -- When _GRVY_RemoveAll returns 0 for an entry that is no directory, or for a directory that nftw
  -- can read, nothing is left under its path.
  pub remove_all-IsGone :
      (p : Text) (s : S)
      → IsReadable p s
      → (remove_all calls p s).0 ≡ pos 0
      → IsGone (remove_all calls p s).1 p
  unfolding remove_all
  remove_all-IsGone p s (inl r) h = ground (arith, r, h, calls.unlink-gone p s)
  remove_all-IsGone p s (inr (before, e)) h =
      ground (arith, h, e, nftw-IsGone p before s, calls.unlink-gone p s)

  -- For a directory that nftw cannot read, _GRVY_RemoveAll returns 0 and removes nothing.
  pub remove_all_unreadable :
      (p : Text) (s : S)
      → calls.lstat p s ≡ directory
      → calls.walk p s ≡ (p, ftw_dnr) ∷ []
      → remove_all calls p s ≡ (pos 0, s)
  unfolding remove_all nftw nftw_helper
  remove_all_unreadable p s h e = ground (arith, h, e)

  pub exit_handler-kept :
      (paths : List Text) (q : Text) (s : S) → IsGone s q → IsGone (exit_handler calls paths s) q
  unfolding exit_handler
  exit_handler-kept [] q s h = h
  exit_handler-kept (p ∷ paths) q s h =
      exit_handler-kept paths q (remove_all calls p s).1 (remove_all-kept p q s h)

  -- Each removal that the handler comes to succeeds, on what nftw can read.
  abbrev pub Removes : List Text → S → Type 0
  Removes [] s = Unit
  Removes (p ∷ paths) s =
      IsReadable p s × ((remove_all calls p s).0 ≡ pos 0) × Removes paths (remove_all calls p s).1

  pub exit_handler-IsGone :
      (paths : List Text) (s : S)
      → Removes paths s
      → All (IsGone (exit_handler calls paths s)) paths
  unfolding exit_handler
  exit_handler-IsGone [] s r = tt
  exit_handler-IsGone (p ∷ paths) s (a, b, r) = (
    exit_handler-kept paths p (remove_all calls p s).1 (remove_all-IsGone p s a b),
    exit_handler-IsGone paths (remove_all calls p s).1 r,
  )
