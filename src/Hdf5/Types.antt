-- ===== src/Hdf5/Types.antt =====
-- The state of GRVY_HDF5_Class in src/grvy_hdf5.cpp and src/grvy_int.h.
use grvy.Base.{ℕ, Bool, true, false, Option, none, some, List, []}
use grvy.Base.Map.{find, insert}
use grvy.Base.Int.{ℤ, pos, negsuc}
use grvy.Base.Text.{Text, text_key}

-- GRVY_HDF5_ClassImp, with the library's state and its error handler: none is no handler.
pub record H5 (S : Type 0) : Type 0 where
  pub system : S
  pub handler : Option ℕ
  pub error_orig : Option ℕ
  pub file_id : ℤ
  pub group_ids : List (Text × ℤ)
  pub dataset_ids : List (Text × ℤ)
  pub attribute_ids : List (Text × ℤ)

-- The constructor.
abbrev pub new_h5 : {S : Type 0} → S → Option ℕ → H5 S
new_h5 system handler = record {
  system = system;
  handler = handler;
  error_orig = none;
  file_id = negsuc 0;
  group_ids = [];
  dataset_ids = [];
  attribute_ids = [];
}

module _ {S : Type 0} where
  -- `silence_hdf_error_handler` and `restore_hdf_error_handler`.
  unfoldable pub silence : H5 S → H5 S
  silence h = record h { error_orig = h.handler; handler = none }

  unfoldable pub restore : H5 S → H5 S
  restore h = record h { handler = h.error_orig }

  -- The value of `groupIds[name]`: a name that is not there is put there with the identifier 0.
  unfoldable pub group_id : Text → H5 S → ℤ
  group_id name h = elim (find name h.group_ids) [ none ↦ pos 0 | some id ↦ id ]

  unfoldable pub touch_group : Text → H5 S → H5 S
  touch_group name h = elim (find name h.group_ids) [
    | none ↦ record h { group_ids = insert name (pos 0) h.group_ids }
    | some id ↦ h
  ]

  -- `is_group_open`.
  unfoldable pub is_group_open : Text → H5 S → Bool
  is_group_open name h = elim (find name h.group_ids) [ none ↦ false | some id ↦ true ]

  abbrev pub with_system : S → H5 S → H5 S
  with_system s h = record h { system = s }
