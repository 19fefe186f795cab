-- ===== src/History/Tables/Frames.antt =====
-- What the calls on attributes in src/grvy_hdf5.cpp leave alone.
use grvy.Base.{some, ◌≡◌, inl, inr, Result, ok, fail, ◌>>=◌, arith, Result-cases}
use grvy.Base.Map.{find}
use grvy.Base.Int.{ℤ}
use grvy.Base.Text.{Text, text_key}
use grvy.Hdf5.Library.{Library}
use grvy.Hdf5.Types.{H5, silence, restore, group_id, touch_group, is_group_open, with_system}
use grvy.Hdf5.Objects.{group_open}
use grvy.Hdf5.Attributes.{
  attribute_exists, attribute_open, attribute_target, write_and_close, attribute_write,
  attribute_read,
}

-- A part of the library's state that no call on an attribute or a space changes.
pub record Untouched {S V X : Type 0} (lib : Library S V) (view : S → X) : Type 0 where
  pub a_open-view : (g : ℤ) (a : Text) (s : S) → view (lib.a_open g a s).1 ≡ view s
  pub a_create-view : (g : ℤ) (a : Text) (s : S) → view (lib.a_create g a s).1 ≡ view s
  pub a_write-view : (id : ℤ) (v : V) (s : S) → view (lib.a_write id v s).1 ≡ view s
  pub a_close-view : (id : ℤ) (s : S) → view (lib.a_close id s) ≡ view s
  pub s_create-view : (s : S) → view (lib.s_create s).1 ≡ view s
  pub s_close-view : (id : ℤ) (s : S) → view (lib.s_close id s) ≡ view s

module _ {S V X : Type 0} {lib : Library S V} {view : S → X} (untouched : Untouched lib view) where
  abbrev pub SameView : H5 S → Result (H5 S) → Type 0
  SameView h (ok h') = view h'.system ≡ view h.system
  SameView h (fail e) = Unit

  attribute_exists-view :
      (g a : Text) (h : H5 S) → view (attribute_exists lib g a h).1.system ≡ view h.system
  unfolding attribute_exists touch_group silence restore
  attribute_exists-view g a h =
      let (id, s) = lib.a_open (group_id g h) a h.system in
      ground (arith, untouched.a_open-view (group_id g h) a h.system, untouched.a_close-view id s)

  attribute_target-view :
      (g a : Text) (h : H5 S) → SameView h (attribute_target lib g a h >>= (λ r. ok r.1))
  unfolding attribute_target attribute_open touch_group silence restore
  attribute_target-view g a h =
      let e = (attribute_exists lib g a h).1 in
      ground (
        arith,
        attribute_exists-view g a h,
        untouched.a_open-view (group_id g e) a e.system,
        untouched.a_create-view (group_id g e) a e.system,
      )

  pub attribute_write-view :
      (g a : Text) (v : V) (h : H5 S) → SameView h (attribute_write lib g a v h)
  unfolding attribute_write write_and_close
  attribute_write-view g a v h =
      let (space, s) = lib.s_create h.system in
      elim (Result-cases (attribute_target lib g a (with_system s h))) [
        | inr (f, e) ↦ ground (arith, e)
        | inl ((id, o), e) ↦
            let t = (lib.a_write id v o.system).1 in
            ground (
              arith,
              e,
              attribute_target-view g a (with_system s h),
              untouched.s_create-view h.system,
              untouched.a_write-view id v o.system,
              untouched.a_close-view id t,
              untouched.s_close-view space (lib.a_close id t),
            )
      ]

  -- AttributeRead in an open group also leaves the open file and the three maps.
  pub attribute_read-view :
      (g a : Text) (id : ℤ) (h : H5 S)
      → find g h.group_ids ≡ some id
      → SameView h (attribute_read lib g a h >>= (λ r. ok r.2))
  unfolding attribute_read group_open is_group_open silence restore
  attribute_read-view g a id h known =
      let (aid, s) = lib.a_open (group_id g h) a h.system in
      ground (
        arith,
        known,
        untouched.a_open-view (group_id g h) a h.system,
        untouched.a_close-view aid s,
      )
