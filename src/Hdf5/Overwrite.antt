-- ===== src/Hdf5/Overwrite.antt =====
-- Writes of src/grvy_hdf5.cpp to an attribute that is there already: AttributeWrite opens it by
-- AttributeOpen, which keeps its identifier, and closes it.
use grvy.Base.{false, none, some, ◌≡◌, inl, inr, ok, arith}
use grvy.Base.Map.{find}
use grvy.Base.Int.{ℤ, pos}
use grvy.Base.Text.{Text, text_key}
use grvy.Hdf5.Library.{is_negative, Library}
use grvy.Hdf5.Types.{H5, with_system}
use grvy.Hdf5.Attributes.{
  attribute_exists, attribute_open, attribute_id, attribute_target, write_and_close,
  attribute_write, attribute_read,
}
use grvy.Hdf5.Values.{
  Attributes, Stores, after_read, read_of_value, exists_of_value, exists_value, exists_fields,
  exists_closed,
}
use grvy.Hdf5.RoundTrip.{Written, write_of_Writable}

module _ {S V : Type 0} {lib : Library S V} (attributes : Attributes lib) where
  -- A write through an identifier that was closed returns, and changes nothing.
  write_of_closed :
      (g a : Text) (id old : ℤ) (v w : V) (h : H5 S)
      → is_negative h.file_id ≡ false
      → is_negative old ≡ false
      → find g h.group_ids ≡ some id
      → find a h.attribute_ids ≡ some old
      → attributes.target old h.system ≡ none
      → attributes.value id a h.system ≡ some v
      → (h' : H5 S) × (attribute_write lib g a w h ≡ ok h')
        × (attributes.value id a h'.system ≡ some v)
        × (h'.group_ids ≡ h.group_ids)
        × (h'.file_id ≡ h.file_id)
  unfolding attribute_write attribute_target attribute_open attribute_id write_and_close
  write_of_closed g a id old v w h on nonneg known held closed has =
      let (space, s) = lib.s_create h.system in
      let b = with_system s h in
      let e = (attribute_exists lib g a b).1 in
      let t = (lib.a_write old w e.system).1 in
      let has_b : attributes.value id a b.system ≡ some v =
        ground (arith, has, attributes.s_create-value id a h.system) in
      let found = exists_of_value attributes g a id v b known has_b in
      let fields = exists_fields attributes g a id b known in
      let closed_b =
        exists_closed attributes g a id old b known
          (ground (arith, closed, attributes.s_create-target old h.system)) found in
      (
        write_and_close lib old space w e,
        ground (arith, on, nonneg, held, found, fields, attributes.s_create-opens h.system),
        ground (
          arith,
          has_b,
          closed_b,
          exists_value attributes g a id b known,
          attributes.a_write-closed old id a w e.system,
          attributes.a_close-value old id a t,
          attributes.s_close-value space id a (lib.a_close old t),
        ),
        ground (arith, fields),
        ground (arith, fields),
      )

  -- An attribute that is there, whose name was not opened before, and in which H5Awrite can store a
  -- first value (the file may be written, and the attribute's type holds it), is overwritten once:
  -- AttributeWrite of a second value returns too, but AttributeRead then gives the first one.
  pub second_overwrite_lost :
      (g a : Text) (id : ℤ) (v0 v1 v2 : V) (h : H5 S)
      → is_negative h.file_id ≡ false
      → find g h.group_ids ≡ some id
      → attributes.value id a h.system ≡ some v0
      → find a h.attribute_ids ≡ none
      → Stores attributes id a v1
      → (h1 h2 h3 : H5 S) × (attribute_write lib g a v1 h ≡ ok h1)
        × (attribute_write lib g a v2 h1 ≡ ok h2)
        × (attribute_read lib g a h2 ≡ ok (pos 0, some v1, h3))
  unfolding Written
  second_overwrite_lost g a id v0 v1 v2 h on known has first stores =
      let (h1, e1, has1, groups, file, kept) =
        write_of_Writable attributes g a id v1 h on known (inr (v0, has, first)) stores in
      elim kept [
        | inr missing ↦ ground (arith, missing, has)
        | inl (aid, held, nonneg, closed) ↦
            let (h2, e2, has2, groups2, file2) =
              write_of_closed g a id aid v1 v2 h1 (ground (arith, on, file)) nonneg
                (ground (arith, groups, known)) held closed has1 in
            let r =
              read_of_value attributes g a id v1 h2 (ground (arith, file2, file, on))
                (ground (arith, groups2, groups, known)) has2 in
            (h1, h2, after_read attributes a id h2, e1, e2, r)
      ]
