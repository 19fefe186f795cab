-- ===== src/Hdf5/Tests.antt =====
-- Calls of src/grvy_hdf5.cpp on a small library, in which identifiers count up.
use grvy.Base.{ℕ, true, none, some, List, [], ◌∷◌, ◌≡◌, refl, inl, ok, if◌then◌else◌}
use grvy.Base.Map.{find}
use grvy.Base.Int.{pos, beq_ℤ}
use grvy.Base.Text.{Text, bytes, text_beq, text_key}
use grvy.Hdf5.Types.{H5, new_h5}
use grvy.Hdf5.Attributes.{attribute_write, attribute_read}
use grvy.Hdf5.Handler.{
  Call, create_new, create_group, write_attribute, read_attribute, HandlerKept, calls, calls-Kept,
}
use grvy.Hdf5.Released
use grvy.Hdf5.Released.{Use, uses}
use grvy.Hdf5.RoundTrip.{attribute_read-attribute_write}
use grvy.Hdf5.Overwrite.{second_overwrite_lost}
use grvy.Hdf5.Simulation.{
  Sim, empty_sim, open_any, put_at, sim, sim_attributes, sim_attributes-Stores,
}

abbrev file_name : Text
file_name = bytes "f"

abbrev group_name : Text
group_name = bytes "g"

abbrev data_name : Text
data_name = bytes "d"

-- An open file, with identifier 1, and an open group, with identifier 2.
abbrev in_file : H5 (Sim ℕ (Unit {0}))
in_file = record (new_h5 (open_any (open_any (empty_sim tt)).1).1 (some 7)) { file_id = pos 1 }

abbrev in_group : H5 (Sim ℕ (Unit {0}))
in_group = record in_file { group_ids = (group_name, pos 2) ∷ [] }

-- An attribute of the group has the value 4.
abbrev with_value : H5 (Sim ℕ (Unit {0}))
with_value = record in_group { system = put_at (pos 2) data_name 4 in_group.system }

abbrev four_calls : List (Call ℕ)
four_calls =
    create_new file_name true
    ∷ create_group group_name
    ∷ write_attribute group_name data_name 5
    ∷ read_attribute group_name data_name
    ∷ []

calls-Kept_example :
    HandlerKept
      (new_h5 (empty_sim tt) (some 7))
      (calls sim four_calls (new_h5 (empty_sim tt) (some 7)))
calls-Kept_example = calls-Kept sim four_calls (new_h5 (empty_sim tt) (some 7))

attribute_read-attribute_write_example :
    (h1 h2 : H5 (Sim ℕ (Unit {0}))) × (attribute_write sim group_name data_name 5 in_group ≡ ok h1)
    × (attribute_read sim group_name data_name h1 ≡ ok (pos 0, some 5, h2))
unfolding find text_beq sim_attributes
attribute_read-attribute_write_example =
    attribute_read-attribute_write sim_attributes group_name data_name (pos 2) 5 in_group refl refl
      (inl (refl, λ s h. refl)) (sim_attributes-Stores (pos 2) data_name 5)

second_overwrite_lost_example :
    (h1 h2 h3 : H5 (Sim ℕ (Unit {0}))) × (attribute_write sim group_name data_name 5 with_value
      ≡ ok h1)
    × (attribute_write sim group_name data_name 6 h1 ≡ ok h2)
    × (attribute_read sim group_name data_name h2 ≡ ok (pos 0, some 5, h3))
unfolding find text_beq sim_attributes
second_overwrite_lost_example =
    second_overwrite_lost sim_attributes group_name data_name (pos 2) 4 5 6 with_value refl refl
      refl refl (sim_attributes-Stores (pos 2) data_name 5)

abbrev five_uses : List Use
five_uses =
    Released.create_new file_name true
    ∷ Released.create_group group_name
    ∷ Released.test_dataset group_name data_name
    ∷ Released.open_dataset group_name data_name
    ∷ []

abbrev used : H5 (Sim ℕ (Unit {0}))
used =
    record (new_h5
      (record (empty_sim tt) {
        next = 5;
        open_list = pos 4 ∷ pos 2 ∷ pos 1 ∷ [];
        targets = λ i. if beq_ℤ i (pos 3) then none else none;
      })
      (some 7)) {
        error_orig = some 7;
        file_id = pos 1;
        group_ids = (group_name, pos 2) ∷ [];
        dataset_ids = (data_name, pos 4) ∷ [];
      }
