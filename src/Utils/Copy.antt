-- ===== src/Utils/Copy.antt =====
-- grvy_copy_dir of src/grvy_utils.cpp, built with boost::filesystem.
use grvy.Base.{
  ℕ, ◌+◌, ◌/◌, ◌%◌, Bool, not, Option, none, some, List, [], ◌∷◌, ◌==◌, ◌&&◌, ◌||◌, ◌≡◌,
  if◌then◌else◌, Result, ok, fail, bad_access, ◌>>=◌, arith, Result-cases, inl, inr,
}
use grvy.Base.Text.{Text, bytes, text_beq}

-- boost::filesystem, stat and chmod, on a state S. `entries` are the paths that the recursive iterator
-- visits, taken as they are when the loop starts; `join` is `/=`.
pub record CopyCalls (S : Type 0) : Type 0 where
  pub is_directory : Text → S → Bool
  pub exists : Text → S → Bool
  pub is_empty : Text → S → Bool
  pub create_directory : Text → S → Bool × S
  pub entries : Text → S → List Text
  pub copy : Text → Text → S → Bool × S
  pub mode_of : Text → S → Option ℕ
  pub chmod : Text → ℕ → S → Bool × S
  pub join : Text → Text → Text

-- The files, and the environment variable LC_ALL.
pub record Place (S : Type 0) : Type 0 where
  pub files : S
  pub lc_all : Option Text

-- What stands behind a prefix.
abbrev pub after_prefix : Text → Text → Option Text
after_prefix [] t = some t
after_prefix (c ∷ p) [] = none
after_prefix (c ∷ p) (d ∷ t) = if c == d then after_prefix p t else none

-- `path_in.substr(path_in.find(from_dir) + strlen(from_dir))`.
unfoldable pub behind : Text → Text → Option Text
behind from [] = after_prefix from []
behind from (c ∷ t) =
    let later = behind from t in elim (after_prefix from (c ∷ t)) [ none ↦ later | some r ↦ some r ]

-- `mode | S_IWUSR`.
abbrev pub user_writable : ℕ → ℕ
user_writable mode = if mode / 128 % 2 == 1 then mode else mode + 128

module _ {S : Type 0} (calls : CopyCalls S) where
  -- A copied directory is made writable; other entries are left.
  unfoldable pub ensure_writable : Text → S → ℕ × S
  ensure_writable target s =
      if calls.is_directory target s
      then (elim (calls.mode_of target s) [
        | none ↦ (1, s)
        | some mode ↦
            let (done, s') = calls.chmod target (user_writable mode) s in
            (if done then 0 else 1, s')
      ])
      else (0, s)

  -- One round of the loop.
  unfoldable pub copy_entry : Text → Text → Text → S → Result (ℕ × S)
  copy_entry from_dir to_dir path_in s = elim (behind from_dir path_in) [
    | none ↦ fail bad_access
    | some rest ↦
        let target = calls.join to_dir rest in
        let (done, s') = calls.copy path_in target s in
        if calls.exists target s
        then ok (0, s)
        else if done
        then ok (ensure_writable target s')
        else ok (1, s')
  ]

  unfoldable pub copy_entries : Text → Text → List Text → S → Result (ℕ × S)
  copy_entries from_dir to_dir [] s = ok (0, s)
  copy_entries from_dir to_dir (p ∷ ps) s = copy_entry from_dir to_dir p s >>= (λ (code, s').
      let rest = copy_entries from_dir to_dir ps s' in if code == 0 then rest else ok (code, s'))

  -- The checks before the copy: the code, and the state in which the target is there and empty.
  unfoldable pub prepare_copy : Text → Text → S → ℕ × S
  prepare_copy from_dir to_dir s =
      let (made, s') = calls.create_directory to_dir s in
      if not (calls.is_directory from_dir s)
        || text_beq from_dir to_dir
        || (calls.exists to_dir s && not (calls.is_directory to_dir s))
      then (1, s)
      else if calls.is_directory to_dir s
      then (if calls.is_empty to_dir s then 0 else 1, s)
      else (if made then 0 else 1, s')

  -- `grvy_copy_dir`. LC_ALL is restored only where the loop comes to its end.
  unfoldable pub copy_dir : Text → Text → Place S → Result (ℕ × Place S)
  copy_dir from_dir to_dir place =
      let (code, s) = prepare_copy from_dir to_dir place.files in
      if code == 0
      then (copy_entries from_dir to_dir (calls.entries from_dir s) s >>= (λ (copied, s'). ok (
        copied,
        record place {
          files = s';
          lc_all = if copied == 0 then place.lc_all else some (bytes "C");
        },
      )))
      else ok (code, record place { files = s })

  -- Where grvy_copy_dir returns, LC_ALL is as it was if it returns 0 or has not begun to copy, and "C"
  -- otherwise.
  pub copy_dir-lc_all :
      (from_dir to_dir : Text) (place place' : Place S) (code : ℕ)
      → copy_dir from_dir to_dir place ≡ ok (code, place')
      → place'.lc_all ≡ (
          if (code == 0) || not ((prepare_copy from_dir to_dir place.files).0 == 0)
          then place.lc_all
          else some (bytes "C"))
  unfolding copy_dir
  copy_dir-lc_all from_dir to_dir place place' code e =
      let (ready, s) = prepare_copy from_dir to_dir place.files in
      elim (Result-cases (copy_entries from_dir to_dir (calls.entries from_dir s) s)) [
        | inr (x, f) ↦ ground (arith, e, f)
        | inl ((copied, s'), f) ↦ ground (arith, e, f)
      ]
