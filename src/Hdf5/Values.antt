-- ===== src/Hdf5/Values.antt =====
-- What attributes hold after the writes of src/grvy_hdf5.cpp, read back by AttributeRead.
use grvy.Base.{true, false, Option, none, some, ◌≡◌, ◌≢◌, ok, arith}
use grvy.Base.Map.{find}
use grvy.Base.Int.{ℤ, pos, beq_ℤ_iff}
use grvy.Base.Text.{Text, text_key}
use grvy.Hdf5.Library.{is_negative, Library}
use grvy.Hdf5.Types.{H5, silence, restore, group_id, touch_group, is_group_open, with_system}
use grvy.Hdf5.Objects.{group_open}
use grvy.Hdf5.Attributes.{attribute_exists, write_and_close, attribute_read}

-- What is documented of attributes: which value one has, and which attribute an open identifier
-- names. Spaces are apart from them.
pub record Attributes {S V : Type 0} (lib : Library S V) : Type 0 where
  pub value : ℤ → Text → S → Option V
  pub target : ℤ → S → Option (ℤ × Text)
  pub a_open-missing :
      (g : ℤ) (a : Text) (s : S) → value g a s ≡ none → is_negative (lib.a_open g a s).0 ≡ true
  pub a_open-target :
      (g : ℤ) (a : Text) (v : V) (s : S)
      → value g a s ≡ some v
      → (is_negative (lib.a_open g a s).0 ≡ false)
        × (target (lib.a_open g a s).0 (lib.a_open g a s).1 ≡ some (g, a))
  pub a_open-others :
      (g id : ℤ) (a : Text) (s : S)
      → (lib.a_open g a s).0 ≢ id
      → target id (lib.a_open g a s).1 ≡ target id s
  pub a_open-value :
      (g g' : ℤ) (a a' : Text) (s : S) → value g' a' (lib.a_open g a s).1 ≡ value g' a' s
  pub a_create-target :
      (g : ℤ) (a : Text) (s : S)
      → is_negative (lib.a_create g a s).0 ≡ false
      → target (lib.a_create g a s).0 (lib.a_create g a s).1 ≡ some (g, a)
  pub a_write-closed :
      (id g : ℤ) (a : Text) (v : V) (s : S)
      → target id s ≡ none
      → value g a (lib.a_write id v s).1 ≡ value g a s
  pub a_write-target :
      (id id' : ℤ) (v : V) (s : S) → target id' (lib.a_write id v s).1 ≡ target id' s
  pub a_read-value :
      (id g : ℤ) (a : Text) (s : S)
      → target id s ≡ some (g, a)
      → lib.a_read id s ≡ (pos 0, value g a s)
  pub a_close-value : (id g : ℤ) (a : Text) (s : S) → value g a (lib.a_close id s) ≡ value g a s
  pub a_close-target : (id : ℤ) (s : S) → target id (lib.a_close id s) ≡ none
  pub a_close-others :
      (id id' : ℤ) (s : S) → id ≢ id' → target id' (lib.a_close id s) ≡ target id' s
  pub s_create-opens : (s : S) → is_negative (lib.s_create s).0 ≡ false
  pub s_create-value : (g : ℤ) (a : Text) (s : S) → value g a (lib.s_create s).1 ≡ value g a s
  pub s_create-target : (id : ℤ) (s : S) → target id (lib.s_create s).1 ≡ target id s
  pub s_close-value : (id g : ℤ) (a : Text) (s : S) → value g a (lib.s_close id s) ≡ value g a s
  pub s_close-target : (id id' : ℤ) (s : S) → target id' (lib.s_close id s) ≡ target id' s

module _ {S V : Type 0} {lib : Library S V} (attributes : Attributes lib) where
  -- H5Awrite can store a value in an attribute of a group: the file may be written, and the
  -- attribute's type holds the value.
  abbrev pub Stores : ℤ → Text → V → Type 0
  Stores g a v =
      (id : ℤ) (s : S)
      → attributes.target id s ≡ some (g, a)
      → attributes.value g a (lib.a_write id v s).1 ≡ some v

  -- The state after AttributeRead has read an attribute in an open group.
  abbrev pub after_read : Text → ℤ → H5 S → H5 S
  after_read a id h =
      let (aid, s) = lib.a_open id a h.system in
      with_system (lib.a_close aid s) (restore (silence (with_system s h)))

  pub read_of_value :
      (g a : Text) (id : ℤ) (v : V) (h : H5 S)
      → is_negative h.file_id ≡ false
      → find g h.group_ids ≡ some id
      → attributes.value id a h.system ≡ some v
      → attribute_read lib g a h ≡ ok (pos 0, some v, after_read a id h)
  unfolding attribute_read group_open is_group_open group_id
  read_of_value g a id v h on known has =
      let (aid, s) = lib.a_open id a h.system in
      ground (
        arith,
        on,
        known,
        has,
        attributes.a_open-target id a v h.system,
        attributes.a_open-value id id a a h.system,
        attributes.a_read-value aid id a s,
      )

  pub after_read-value :
      (a : Text) (id : ℤ) (h : H5 S)
      → attributes.value id a (after_read a id h).system ≡ attributes.value id a h.system
  unfolding restore silence
  after_read-value a id h =
      let (aid, s) = lib.a_open id a h.system in
      ground
        (arith, attributes.a_open-value id id a a h.system, attributes.a_close-value aid id a s)

  -- AttributeExists tells whether there is a value, and changes none.
  pub exists_of_value :
      (g a : Text) (id : ℤ) (v : V) (h : H5 S)
      → find g h.group_ids ≡ some id
      → attributes.value id a h.system ≡ some v
      → (attribute_exists lib g a h).0 ≡ true
  unfolding attribute_exists group_id
  exists_of_value g a id v h known has =
      ground (arith, known, has, attributes.a_open-target id a v h.system)

  pub exists_of_none :
      (g a : Text) (id : ℤ) (h : H5 S)
      → find g h.group_ids ≡ some id
      → attributes.value id a h.system ≡ none
      → (attribute_exists lib g a h).0 ≡ false
  unfolding attribute_exists group_id
  exists_of_none g a id h known has =
      ground (arith, known, has, attributes.a_open-missing id a h.system)

  pub exists_value :
      (g a : Text) (id : ℤ) (h : H5 S)
      → find g h.group_ids ≡ some id
      → attributes.value id a (attribute_exists lib g a h).1.system ≡ attributes.value id a h.system
  unfolding attribute_exists group_id touch_group silence restore
  exists_value g a id h known =
      let (aid, s) = lib.a_open id a h.system in
      ground (
        arith,
        known,
        attributes.a_open-value id id a a h.system,
        attributes.a_close-value aid id a s,
      )

  pub exists_fields :
      (g a : Text) (id : ℤ) (h : H5 S)
      → find g h.group_ids ≡ some id
      → ((attribute_exists lib g a h).1.group_ids ≡ h.group_ids)
        × ((attribute_exists lib g a h).1.attribute_ids ≡ h.attribute_ids)
        × ((attribute_exists lib g a h).1.file_id ≡ h.file_id)
  unfolding attribute_exists group_id touch_group silence restore
  exists_fields g a id h known =
      (ground (arith, known), ground (arith, known), ground (arith, known))

  -- An identifier that names no attribute still names none after AttributeExists.
  pub exists_closed :
      (g a : Text) (id old : ℤ) (h : H5 S)
      → find g h.group_ids ≡ some id
      → attributes.target old h.system ≡ none
      → (attribute_exists lib g a h).0 ≡ true
      → attributes.target old (attribute_exists lib g a h).1.system ≡ none
  unfolding attribute_exists group_id touch_group silence restore
  exists_closed g a id old h known closed found =
      let (aid, s) = lib.a_open id a h.system in
      ground (
        arith,
        known,
        closed,
        found,
        beq_ℤ_iff aid old,
        attributes.a_open-others id old a h.system,
        attributes.a_close-target aid s,
        attributes.a_close-others aid old s,
      )

  -- The write through an identifier that names the attribute.
  pub write_and_close-value :
      (aid space id : ℤ) (a : Text) (v : V) (h : H5 S)
      → Stores id a v
      → attributes.target aid h.system ≡ some (id, a)
      → attributes.value id a (write_and_close lib aid space v h).system ≡ some v
  unfolding write_and_close
  write_and_close-value aid space id a v h stores open_now =
      let s = (lib.a_write aid v h.system).1 in
      ground (
        arith,
        open_now,
        stores aid h.system,
        attributes.a_close-value aid id a s,
        attributes.s_close-value space id a (lib.a_close aid s),
      )
