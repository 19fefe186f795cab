-- ===== src/Hdf5/Released.antt =====
-- Which HDF5 objects are open after calls of src/grvy_hdf5.cpp that open each group first.
use grvy.Base.{Bool, List, [], ◌∷◌, Result, ok, ◌>>=◌}
use grvy.Base.Text.{Text}
use grvy.Hdf5.Library.{Library}
use grvy.Hdf5.Types.{H5}
use grvy.Hdf5.Files.{create_file, file_exists, open_file, close_file}
use grvy.Hdf5.Objects.{group_create, group_exists, group_open, dataset_exists, dataset_open}
use grvy.Hdf5.Attributes.{attribute_exists, attribute_open}
use grvy.Hdf5.Held.{Objects, Held}

-- Calls on files, and on objects of a group that GroupOpen opens first.
pub data Use : Type 0 where
  create_new open_existing : Text → Bool → Use
  exists create_group open_group test_group : Text → Use
  close : Use
  test_dataset open_dataset test_attribute open_attribute : Text → Text → Use

module _ {S V : Type 0} (lib : Library S V) where
  abbrev pub use_file : Use → H5 S → Result (H5 S)
  use_file (create_new f o) h = create_file lib f o h
  use_file (open_existing f r) h = open_file lib f r h
  use_file (exists f) h = ok (file_exists lib f h).1
  use_file close h = ok (close_file lib h)
  use_file (create_group g) h = group_create lib g h >>= (λ r. ok r.1)
  use_file (open_group g) h = group_open lib g h
  use_file (test_group g) h = ok (group_exists lib g h).1
  use_file (test_dataset g d) h = group_open lib g h >>= (λ o. ok (dataset_exists lib g d o).1)
  use_file (open_dataset g d) h = group_open lib g h >>= (λ o. dataset_open lib g d o)
  use_file (test_attribute g a) h = group_open lib g h >>= (λ o. ok (attribute_exists lib g a o).1)
  use_file (open_attribute g a) h = group_open lib g h >>= (λ o. attribute_open lib g a o)

  abbrev pub uses : List Use → H5 S → Result (H5 S)
  uses [] h = ok h
  uses (c ∷ cs) h = use_file c h >>= (λ h'. uses cs h')
