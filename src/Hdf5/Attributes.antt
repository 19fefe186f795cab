-- ===== src/Hdf5/Attributes.antt =====
-- Attributes in src/grvy_hdf5.cpp.
use grvy.Base.{
  Bool, true, false, not, ◌||◌, Option, none, some, if◌then◌else◌, Result, ok, aborted, ◌>>=◌, ◌>>◌,
  guard,
}
use grvy.Base.Map.{find, insert}
use grvy.Base.Int.{ℤ, pos, negsuc}
use grvy.Base.Text.{Text, text_key}
use grvy.Hdf5.Library.{is_negative, Library}
use grvy.Hdf5.Types.{H5, silence, restore, group_id, touch_group, with_system}
use grvy.Hdf5.Objects.{group_open}

module _ {S V : Type 0} (lib : Library S V) where
  -- `AttributeExists`.
  unfoldable pub attribute_exists : Text → Text → H5 S → Bool × H5 S
  attribute_exists groupname attribute h =
      let h' = touch_group groupname (silence h) in
      let (id, s) = lib.a_open (group_id groupname h) attribute h.system in
      if is_negative id
      then (false, restore (with_system s h'))
      else (true, restore (with_system (lib.a_close id s) h'))

  -- `AttributeOpen`.
  unfoldable pub attribute_open : Text → Text → H5 S → Result (H5 S)
  attribute_open groupname attribute h =
      guard (not (is_negative h.file_id)) aborted >> (elim (find attribute h.attribute_ids) [
        | some id ↦ ok h
        | none ↦
            let h' = touch_group groupname (silence h) in
            let (id, s) = lib.a_open (group_id groupname h) attribute h.system in
            guard (not (is_negative id)) aborted
            >> ok (
                restore
                  (record h' { system = s; attribute_ids = insert attribute id h.attribute_ids }))
      ])

  -- `attributeIds[attribute]`, once it is there.
  unfoldable pub attribute_id : Text → H5 S → ℤ
  attribute_id attribute h = elim (find attribute h.attribute_ids) [ none ↦ pos 0 | some id ↦ id ]

  -- The identifier to write through: of an attribute that is there, or of a new one.
  unfoldable pub attribute_target : Text → Text → H5 S → Result (ℤ × H5 S)
  attribute_target groupname attribute h =
      let (found, h') = attribute_exists groupname attribute h in
      if found
      then (attribute_open groupname attribute h' >>= (λ o. ok (attribute_id attribute o, o)))
      else (let (id, s) = lib.a_create (group_id groupname h') attribute h'.system in
          ok (id, with_system s (touch_group groupname h')))

  -- The end of `AttributeWrite`: the codes of the library are not looked at.
  unfoldable pub write_and_close : ℤ → ℤ → V → H5 S → H5 S
  write_and_close id space value h =
      with_system (lib.s_close space (lib.a_close id (lib.a_write id value h.system).1)) h

  -- `AttributeWrite` of a number.
  unfoldable pub attribute_write : Text → Text → V → H5 S → Result (H5 S)
  attribute_write groupname attribute value h = do
    let (space, s) = lib.s_create h.system
    (id, o) ← attribute_target groupname attribute (with_system s h)
    guard (not (is_negative space || is_negative id)) aborted
        >> ok (write_and_close id space value o)

  -- `AttributeWrite` of a string: always a new attribute.
  unfoldable pub attribute_write_string : Text → Text → V → H5 S → Result (H5 S)
  attribute_write_string groupname attribute value h =
      let (space, s) = lib.s_create h.system in
      let (id, s') = lib.a_create (group_id groupname h) attribute s in
      guard (not (is_negative space || is_negative id)) aborted
      >> ok (write_and_close id space value (with_system s' (touch_group groupname h)))

  -- `AttributeRead`: the code and the value, if one was read. An attribute whose read fails stays
  -- open.
  unfoldable pub attribute_read : Text → Text → H5 S → Result (ℤ × Option V × H5 S)
  attribute_read groupname attribute h = do
    o ← group_open lib groupname h
    let (id, s) = lib.a_open (group_id groupname o) attribute o.system
    let h' = with_system s o
    if is_negative id
        then ok (negsuc 0, none, h')
        else (let (code, value) = lib.a_read id s in
            if is_negative code
            then ok (negsuc 0, none, restore (silence h'))
            else ok (pos 0, value, with_system (lib.a_close id s) (restore (silence h'))))
