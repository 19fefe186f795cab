-- ===== src/Hdf5/Handler.antt =====
-- The HDF5 library's error handler over calls of src/grvy_hdf5.cpp: silence_hdf_error_handler and
-- restore_hdf_error_handler.
use grvy.Base.{
  Bool, false, none, List, [], ◌∷◌, ◌≡◌, refl, inl, inr, if◌then◌else◌, Result, ok, fail, aborted,
  ◌>>=◌, arith, Result-cases,
}
use grvy.Base.Int.{ℤ, beq_ℤ}
use grvy.Base.Text.{Text, text_key}
use grvy.Hdf5.Library.{Library}
use grvy.Hdf5.Types.{H5, silence, restore, group_id, touch_group, is_group_open, with_system}
use grvy.Hdf5.Files.{take_file, create_file, file_exists, open_file, close_file}
use grvy.Hdf5.Objects.{
  bad_id, group_create, group_exists, group_open, dataset_exists, dataset_open, list_sub_groups,
  ptable_exists, ptable_open,
}
use grvy.Hdf5.Attributes.{
  attribute_exists, attribute_open, attribute_target, write_and_close, attribute_write,
  attribute_write_string, attribute_read,
}

-- The public calls, and PTableExists.
pub data Call (V : Type 0) : Type 0 where
  create_new open_existing : Text → Bool → Call V
  exists create_group test_group open_group sub_groups : Text → Call V
  close : Call V
  test_dataset open_dataset test_ptable test_attribute open_attribute read_attribute :
      Text → Text → Call V
  write_attribute write_string : Text → Text → V → Call V

module _ {S : Type 0} where
  -- The call exits, or returns with the handler that was there before.
  abbrev pub HandlerKept : H5 S → Result (H5 S) → Type 0
  HandlerKept h (ok h') = h'.handler ≡ h.handler
  HandlerKept h (fail e) = e ≡ aborted

  touch_group-handler : (name : Text) (h : H5 S) → (touch_group name h).handler ≡ h.handler
  unfolding touch_group
  touch_group-handler name h = ground arith

  touch_group-error_orig : (name : Text) (h : H5 S) → (touch_group name h).error_orig ≡ h.error_orig
  unfolding touch_group
  touch_group-error_orig name h = ground arith

module _ {S V : Type 0} (lib : Library S V) where
  abbrev pub call : Call V → H5 S → Result (H5 S)
  call (create_new f o) h = create_file lib f o h
  call (open_existing f r) h = open_file lib f r h
  call (exists f) h = ok (file_exists lib f h).1
  call (create_group g) h = group_create lib g h >>= (λ r. ok r.1)
  call (test_group g) h = ok (group_exists lib g h).1
  call (open_group g) h = group_open lib g h
  call (sub_groups g) h = list_sub_groups lib g h >>= (λ r. ok r.1)
  call close h = ok (close_file lib h)
  call (test_dataset g d) h = ok (dataset_exists lib g d h).1
  call (open_dataset g d) h = dataset_open lib g d h
  call (test_ptable g t) h = ok (ptable_exists lib g t h).1
  call (test_attribute g a) h = ok (attribute_exists lib g a h).1
  call (open_attribute g a) h = attribute_open lib g a h
  call (read_attribute g a) h = attribute_read lib g a h >>= (λ r. ok r.2)
  call (write_attribute g a v) h = attribute_write lib g a v h
  call (write_string g a v) h = attribute_write_string lib g a v h

  abbrev pub calls : List (Call V) → H5 S → Result (H5 S)
  calls [] h = ok h
  calls (c ∷ cs) h = call c h >>= (λ h'. calls cs h')

  group_open-Kept : (g : Text) (h : H5 S) → HandlerKept h (group_open lib g h)
  unfolding group_open silence restore
  group_open-Kept g h = ground arith

  exists-Kept : (g a : Text) (h : H5 S) → (attribute_exists lib g a h).1.handler ≡ h.handler
  unfolding attribute_exists silence restore
  exists-Kept g a h =
      ground (arith, touch_group-error_orig g (silence h), touch_group-handler g (silence h))

  opened-Kept : (g a : Text) (h : H5 S) → HandlerKept h (attribute_open lib g a h)
  unfolding attribute_open silence restore
  opened-Kept g a h =
      ground (arith, touch_group-error_orig g (silence h), touch_group-handler g (silence h))

  dataset_open-Kept : (g d : Text) (h : H5 S) → HandlerKept h (dataset_open lib g d h)
  unfolding dataset_open silence restore
  dataset_open-Kept g d h =
      ground (arith, touch_group-error_orig g (silence h), touch_group-handler g (silence h))

  target-Kept :
      (g a : Text) (h : H5 S) → HandlerKept h (attribute_target lib g a h >>= (λ r. ok r.1))
  unfolding attribute_target
  target-Kept g a h = ground (
    arith,
    exists-Kept g a h,
    opened-Kept g a (attribute_exists lib g a h).1,
    touch_group-handler g (attribute_exists lib g a h).1,
  )

  write-Kept : (g a : Text) (v : V) (h : H5 S) → HandlerKept h (attribute_write lib g a v h)
  unfolding attribute_write write_and_close
  write-Kept g a v h =
      let s = (lib.s_create h.system).1 in ground (arith, target-Kept g a (with_system s h))

  pub call-Kept : (c : Call V) (h : H5 S) → HandlerKept h (call c h)
  unfolding create_file file_exists open_file take_file close_file group_create group_exists
      list_sub_groups dataset_exists ptable_exists attribute_read attribute_write_string
      write_and_close silence restore
  call-Kept (create_new f o) h = ground arith
  call-Kept (open_existing f r) h = ground arith
  call-Kept (exists f) h = ground arith
  call-Kept close h = ground arith
  call-Kept (create_group g) h = ground arith
  call-Kept (test_group g) h = ground arith
  call-Kept (open_group g) h = group_open-Kept g h
  call-Kept (sub_groups g) h = ground (arith, group_open-Kept g h)
  call-Kept (test_dataset g d) h =
      ground (arith, touch_group-error_orig g (silence h), touch_group-handler g (silence h))
  call-Kept (open_dataset g d) h = dataset_open-Kept g d h
  call-Kept (test_ptable g t) h =
      ground (arith, touch_group-error_orig g (silence h), touch_group-handler g (silence h))
  call-Kept (test_attribute g a) h = exists-Kept g a h
  call-Kept (open_attribute g a) h = opened-Kept g a h
  call-Kept (read_attribute g a) h = ground (arith, group_open-Kept g h)
  call-Kept (write_attribute g a v) h = write-Kept g a v h
  call-Kept (write_string g a v) h = ground (arith, touch_group-handler g h)

  -- After any sequence of public calls, exists tests of packet tables included, either one of them
  -- has made the program exit, or the library's error handler is the one of the start.
  pub calls-Kept : (cs : List (Call V)) (h : H5 S) → HandlerKept h (calls cs h)
  calls-Kept [] h = refl
  calls-Kept (c ∷ cs) h = elim (Result-cases (call c h)) [
    | inl (h', e) ↦ ground (arith, e, call-Kept c h, calls-Kept cs h')
    | inr (f, e) ↦ ground (arith, e, call-Kept c h)
  ]

  -- PTableOpen, where the file is open and the library opens the group and the table, leaves the
  -- handler as it was if the group was open, and leaves no handler if GroupOpen had to open it.
  pub ptable_open-handler :
      (g t : Text) (h o : H5 S)
      → group_open lib g (silence h) ≡ ok o
      → beq_ℤ (lib.d_open (group_id g o) t o.system).0 bad_id ≡ false
      → (id : ℤ) × (h' : H5 S) × (ptable_open lib g t h ≡ ok (id, h'))
        × (h'.handler ≡ (if is_group_open g h then h.handler else none))
  unfolding ptable_open group_open silence restore is_group_open
  ptable_open-handler g t h o opened table =
      let (id, s) = lib.d_open (group_id g o) t o.system in
      (id, restore (with_system s o), ground (arith, opened, table), ground (arith, opened))
