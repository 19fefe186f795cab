-- ===== src/Hdf5/Stale.antt =====
-- Identifiers that src/grvy_hdf5.cpp keeps although they name nothing that is open.
use grvy.Base.{Bool, false, some, [], ◌≡◌, ok, arith}
use grvy.Base.Map.{find}
use grvy.Base.Map.Laws.{find-insert}
use grvy.Base.Int.{ℤ, pos}
use grvy.Base.Text.{Text, text_key}
use grvy.Hdf5.Library.{is_negative, Library}
use grvy.Hdf5.Types.{H5, silence, restore, group_id, touch_group, is_group_open}
use grvy.Hdf5.Files.{take_file, open_file, close_file}
use grvy.Hdf5.Objects.{group_open, dataset_exists, dataset_open}

module _ {S V : Type 0} (lib : Library S V) where
  -- DatasetExists on a group that is not open, while a file is, makes GroupOpen take the group for
  -- open: it returns at once, and the identifier that it leaves in use for the group is 0.
  pub exists_then_open :
      (g d : Text) (h : H5 S)
      → is_negative h.file_id ≡ false
      → is_group_open g h ≡ false
      → let h' = (dataset_exists lib g d h).1 in
        (group_open lib g h' ≡ ok h') × (group_id g h' ≡ pos 0)
  unfolding dataset_exists group_open is_group_open group_id silence restore touch_group
  exists_then_open g d h on shut =
      ground (arith, on, shut, find-insert g g (pos 0) h.group_ids, text_key.beq_iff g g)

  -- After Close of an open file and Open of another one that the library opens, DatasetOpen of a name
  -- under which a data set of the first file was opened, in whatever group, opens nothing: it returns
  -- with the identifier of that data set, although no group is open any more.
  pub dataset_open_stale :
      (g d filename : Text) (readonly : Bool) (id : ℤ) (h : H5 S)
      → is_negative h.file_id ≡ false
      → find d h.dataset_ids ≡ some id
      → is_negative (lib.f_open filename readonly (close_file lib h).system).0 ≡ false
      → (h' : H5 S) × (open_file lib filename readonly (close_file lib h) ≡ ok h')
        × (dataset_open lib g d h' ≡ ok h')
        × (find d h'.dataset_ids ≡ some id)
        × (h'.group_ids ≡ [])
  unfolding close_file open_file take_file dataset_open silence restore
  dataset_open_stale g d filename readonly id h on known opens =
      let (new_id, s) = lib.f_open filename readonly (close_file lib h).system in
      (
        restore (record (silence (close_file lib h)) { system = s; file_id = new_id }),
        ground (arith, on, known, opens),
        ground (arith, on, known, opens),
        ground (arith, on, known, opens),
        ground (arith, on, known, opens),
      )
