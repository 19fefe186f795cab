-- ===== src/Hdf5/RoundTrip.antt =====
-- AttributeWrite and then AttributeRead of src/grvy_hdf5.cpp.
use grvy.Base.{false, none, some, ◌≡◌, ◌⊎◌, inl, inr, ok, arith}
use grvy.Base.Map.{find, insert}
use grvy.Base.Map.Laws.{find-insert}
use grvy.Base.Int.{ℤ, pos}
use grvy.Base.Text.{Text, text_key}
use grvy.Hdf5.Library.{is_negative, Library}
use grvy.Hdf5.Types.{H5, silence, restore, group_id, touch_group, with_system}
use grvy.Hdf5.Attributes.{
  attribute_exists, attribute_open, attribute_id, attribute_target, write_and_close,
  attribute_write, attribute_read,
}
use grvy.Hdf5.Values.{
  Attributes, Stores, after_read, read_of_value, exists_of_value, exists_of_none, exists_value,
  exists_fields, write_and_close-value,
}

module _ {S V : Type 0} {lib : Library S V} (attributes : Attributes lib) where
  -- The attribute is new and the library can create it, or AttributeOpen has not opened one of its
  -- name.
  abbrev pub Writable : ℤ → Text → H5 S → Type 0
  Writable id a h =
      ((attributes.value id a h.system ≡ none)
        × ((s : S) → attributes.value id a s ≡ none → is_negative (lib.a_create id a s).0 ≡ false))
      ⊎ ((v : V) × (attributes.value id a h.system ≡ some v) × (find a h.attribute_ids ≡ none))

  -- The target of a write names the attribute.
  Targets : Text → Text → ℤ → H5 S → Type 0
  Targets g a id h =
      (aid : ℤ) × (o : H5 S) × (attribute_target lib g a h ≡ ok (aid, o))
      × (is_negative aid ≡ false)
      × (attributes.target aid o.system ≡ some (id, a))
      × (o.group_ids ≡ h.group_ids)
      × (o.file_id ≡ h.file_id)
      × ((find a o.attribute_ids ≡ some aid) ⊎ (attributes.value id a h.system ≡ none))

  target_of_new :
      (g a : Text) (id : ℤ) (h : H5 S)
      → find g h.group_ids ≡ some id
      → attributes.value id a h.system ≡ none
      → ((s : S) → attributes.value id a s ≡ none → is_negative (lib.a_create id a s).0 ≡ false)
      → Targets g a id h
  unfolding attribute_target Targets group_id touch_group
  target_of_new g a id h known missing creates =
      let e = (attribute_exists lib g a h).1 in
      let (aid, s) = lib.a_create id a e.system in
      let has_not = exists_of_none attributes g a id h known missing in
      let still = exists_value attributes g a id h known in
      let fields = exists_fields attributes g a id h known in
      (
        aid,
        with_system s e,
        ground (arith, known, has_not, fields),
        ground (arith, missing, still, creates e.system),
        ground (arith, missing, still, creates e.system, attributes.a_create-target id a e.system),
        ground (arith, fields),
        ground (arith, fields),
        inr missing,
      )

  target_of_old :
      (g a : Text) (id : ℤ) (v : V) (h : H5 S)
      → is_negative h.file_id ≡ false
      → find g h.group_ids ≡ some id
      → attributes.value id a h.system ≡ some v
      → find a h.attribute_ids ≡ none
      → Targets g a id h
  unfolding attribute_target Targets attribute_open attribute_id group_id touch_group silence
      restore
  target_of_old g a id v h on known has first =
      let e = (attribute_exists lib g a h).1 in
      let (aid, s) = lib.a_open id a e.system in
      let found = exists_of_value attributes g a id v h known has in
      let still = exists_value attributes g a id h known in
      let fields = exists_fields attributes g a id h known in
      let opens = attributes.a_open-target id a v e.system in
      let at_a = find-insert a a aid h.attribute_ids in
      (
        aid,
        restore (record (silence e) { system = s; attribute_ids = insert a aid e.attribute_ids }),
        ground
            (arith, on, known, first, found, fields, has, still, opens, at_a, text_key.beq_iff a a),
        ground (arith, has, still, opens),
        ground (arith, has, still, opens),
        ground (arith, fields),
        ground (arith, fields),
        inl (ground (arith, fields, at_a, text_key.beq_iff a a)),
      )

  -- The state after a write through an identifier that names the attribute.
  unfoldable pub Written : Text → Text → ℤ → V → H5 S → Type 0
  Written g a id v h =
      (h' : H5 S) × (attribute_write lib g a v h ≡ ok h')
      × (attributes.value id a h'.system ≡ some v)
      × (h'.group_ids ≡ h.group_ids)
      × (h'.file_id ≡ h.file_id)
      × (((aid : ℤ) × (find a h'.attribute_ids ≡ some aid)
            × (is_negative aid ≡ false)
            × (attributes.target aid h'.system ≡ none))
          ⊎ (attributes.value id a h.system ≡ none))

  write_of_target :
      (g a : Text) (id : ℤ) (v : V) (h : H5 S)
      → Stores attributes id a v
      → Targets g a id (with_system (lib.s_create h.system).1 h)
      → Written g a id v h
  unfolding Targets Written attribute_write write_and_close
  write_of_target g a id v h stores (aid, o, e, nonneg, names, groups, file, kept) =
      let space = (lib.s_create h.system).0 in
      let s = (lib.a_write aid v o.system).1 in
      (
        write_and_close lib aid space v o,
        ground (arith, e, nonneg, attributes.s_create-opens h.system),
        write_and_close-value attributes aid space id a v o stores names,
        groups,
        file,
        elim kept [
          | inl held ↦ inl (
            aid,
            held,
            nonneg,
            ground (
              arith,
              attributes.a_close-target aid s,
              attributes.s_close-target space aid (lib.a_close aid s),
            ),
          )
          | inr missing ↦ inr (ground (arith, missing, attributes.s_create-value id a h.system))
        ],
      )

  pub write_of_Writable :
      (g a : Text) (id : ℤ) (v : V) (h : H5 S)
      → is_negative h.file_id ≡ false
      → find g h.group_ids ≡ some id
      → Writable id a h
      → Stores attributes id a v
      → Written g a id v h
  write_of_Writable g a id v h on known (inl (missing, creates)) stores =
      write_of_target g a id v h stores (
        target_of_new g a id (with_system (lib.s_create h.system).1 h) known
          (ground (arith, missing, attributes.s_create-value id a h.system)) creates)
  write_of_Writable g a id v h on known (inr (old, has, first)) stores =
      write_of_target g a id v h stores (
        target_of_old g a id old (with_system (lib.s_create h.system).1 h) on known
          (ground (arith, has, attributes.s_create-value id a h.system)) first)

  -- In an open file with the group open, where the attribute is new and can be created, or no
  -- attribute of its name was opened before, and where H5Awrite can store the value (the file may be
  -- written, and the attribute's type holds the value), AttributeWrite returns, and AttributeRead then
  -- returns 0 with the value.
  pub attribute_read-attribute_write :
      (g a : Text) (id : ℤ) (v : V) (h : H5 S)
      → is_negative h.file_id ≡ false
      → find g h.group_ids ≡ some id
      → Writable id a h
      → Stores attributes id a v
      → (h1 h2 : H5 S) × (attribute_write lib g a v h ≡ ok h1)
        × (attribute_read lib g a h1 ≡ ok (pos 0, some v, h2))
  unfolding Written
  attribute_read-attribute_write g a id v h on known writable stores =
      let (h1, e, has, groups, file, kept) =
        write_of_Writable g a id v h on known writable stores in
      let r =
        read_of_value attributes g a id v h1 (ground (arith, file, on))
          (ground (arith, groups, known)) has in
      (h1, after_read attributes a id h1, e, r)
