-- ===== src/Hdf5/Files.antt =====
-- Files in src/grvy_hdf5.cpp. A call that exits stops with the fault `aborted`.
use grvy.Base.{
  Bool, true, false, not, List, [], ◌∷◌, if◌then◌else◌, Result, ok, aborted, ◌>>◌, guard,
}
use grvy.Base.Int.{ℤ, negsuc}
use grvy.Base.Text.{Text}
use grvy.Hdf5.Library.{is_negative, Library}
use grvy.Hdf5.Types.{H5, silence, restore, with_system}

module _ {S V : Type 0} (lib : Library S V) where
  -- The end of `Create` and `Open`, with the identifier that the library returned.
  unfoldable pub take_file : ℤ × S → H5 S → Result (H5 S)
  take_file (id, s) h =
      guard (not (is_negative id)) aborted >> ok (restore (record h { system = s; file_id = id }))

  -- `Create`.
  unfoldable pub create_file : Text → Bool → H5 S → Result (H5 S)
  create_file filename overwrite_existing h =
      guard (is_negative h.file_id) aborted
      >> take_file (lib.f_create filename overwrite_existing h.system) (silence h)

  -- `Exists`.
  unfoldable pub file_exists : Text → H5 S → Bool × H5 S
  file_exists filename h =
      let (id, s) = lib.f_open filename true h.system in
      if is_negative id
      then (false, restore (with_system s (silence h)))
      else (true, restore (with_system (lib.f_close id s) (silence h)))

  -- `Open`.
  unfoldable pub open_file : Text → Bool → H5 S → Result (H5 S)
  open_file filename readonly h =
      guard (is_negative h.file_id) aborted
      >> take_file (lib.f_open filename readonly h.system) (silence h)

  -- `close_open_objects`: only the groups.
  unfoldable pub close_groups : List (Text × ℤ) → S → S
  close_groups [] s = s
  close_groups ((name, id) ∷ m) s = close_groups m (lib.g_close id s).1

  -- `Close`.
  unfoldable pub close_file : H5 S → H5 S
  close_file h = if is_negative h.file_id then h else record h {
    system = lib.f_close h.file_id (close_groups h.group_ids h.system);
    file_id = negsuc 0;
    group_ids = [];
  }
