-- ===== src/Hdf5/Objects.antt =====
-- Groups, data sets and packet tables in src/grvy_hdf5.cpp.
use grvy.Base.{
  ℕ, Bool, true, false, not, none, some, List, [], ◌∷◌, if◌then◌else◌, Result, ok, aborted, ◌>>=◌,
  ◌>>◌, guard,
}
use grvy.Base.Map.{find, insert}
use grvy.Base.Int.{ℤ, negsuc, beq_ℤ}
use grvy.Base.Text.{Text, text_key}
use grvy.Hdf5.Library.{is_negative, Library}
use grvy.Hdf5.Types.{H5, silence, restore, group_id, touch_group, is_group_open, with_system}

-- `H5I_BADID`.
abbrev pub bad_id : ℤ
bad_id = negsuc 0

module _ {S V : Type 0} (lib : Library S V) where
  -- `GroupCreate`: the code, and the state.
  unfoldable pub group_create : Text → H5 S → Result (ℕ × H5 S)
  group_create descname h =
      if is_group_open descname h
      then ok (1, h)
      else (let (id, s) = lib.g_create h.file_id descname h.system in
          let (code, s') = lib.g_set_comment h.file_id descname s in
          guard (not (is_negative id)) aborted
          >> (guard (not (is_negative code)) aborted
              >> ok (0, record h { system = s'; group_ids = insert descname id h.group_ids })))

  -- `GroupExists`.
  unfoldable pub group_exists : Text → H5 S → Bool × H5 S
  group_exists groupname h =
      let (id, s) = lib.g_open h.file_id groupname h.system in
      if is_negative id
      then (false, restore (with_system s (silence h)))
      else (true, restore (with_system (lib.g_close id s).1 (silence h)))

  -- `GroupOpen`. The code is 0 where it returns.
  unfoldable pub group_open : Text → H5 S → Result (H5 S)
  group_open groupname h =
      guard (not (is_negative h.file_id)) aborted
      >> (if is_group_open groupname h
          then ok h
          else (let (id, s) = lib.g_open h.file_id groupname h.system in
              guard (not (is_negative id)) aborted
              >> ok (
                  restore (record (silence h) {
                    system = s;
                    group_ids = insert groupname id h.group_ids;
                  }))))

  -- `DatasetExists`.
  unfoldable pub dataset_exists : Text → Text → H5 S → Bool × H5 S
  dataset_exists groupname dataname h =
      let h' = touch_group groupname (silence h) in
      let (id, s) = lib.d_open (group_id groupname h) dataname h.system in
      if beq_ℤ id bad_id
      then (false, restore (with_system s h'))
      else (true, restore (with_system (lib.d_close id s).1 h'))

  -- `DatasetOpen`.
  unfoldable pub dataset_open : Text → Text → H5 S → Result (H5 S)
  dataset_open groupname dataname h =
      guard (not (is_negative h.file_id)) aborted >> (elim (find dataname h.dataset_ids) [
        | some id ↦ ok h
        | none ↦
            let h' = touch_group groupname (silence h) in
            let (id, s) = lib.d_open (group_id groupname h) dataname h.system in
            guard (not (is_negative id)) aborted
            >> ok
                (restore (record h' { system = s; dataset_ids = insert dataname id h.dataset_ids }))
      ])

  -- `op_callback`, on each link.
  unfoldable pub only_groups : List (Text × Bool) → List Text
  only_groups [] = []
  only_groups ((name, is_group) ∷ links) =
      let rest = only_groups links in if is_group then name ∷ rest else rest

  -- `ListSubGroups`.
  unfoldable pub list_sub_groups : Text → H5 S → Result (List Text × H5 S)
  list_sub_groups groupname h =
      group_open groupname h
      >>= (λ o. ok (only_groups (lib.l_iterate (group_id groupname o) o.system), o))

  -- `PTableExists`.
  unfoldable pub ptable_exists : Text → Text → H5 S → Bool × H5 S
  ptable_exists groupname tablename h =
      let h' = touch_group groupname (silence h) in
      let (id, s) = lib.pt_open (group_id groupname h) tablename h.system in
      if beq_ℤ id bad_id
      then (false, restore (with_system s h'))
      else (true, restore (with_system (lib.pt_close id s).1 h'))

  -- `PTableOpen`, without USE_HDF5_PTABLE: the identifier. `GroupOpen` runs while the handler is
  -- silenced.
  unfoldable pub ptable_open : Text → Text → H5 S → Result (ℤ × H5 S)
  ptable_open groupname tablename h = group_open groupname (silence h) >>= (λ o.
      let (id, s) = lib.d_open (group_id groupname o) tablename o.system in
      guard (not (beq_ℤ id bad_id)) aborted >> ok (id, restore (with_system s o)))

  -- `PTableClose` and `PTableNumPackets`.
  unfoldable pub ptable_close : ℤ → H5 S → Result (H5 S)
  ptable_close table_id h =
      let (code, s) = lib.pt_close table_id h.system in
      guard (not (is_negative code)) aborted >> ok (with_system s h)

  unfoldable pub ptable_num_packets : ℤ → H5 S → Result ℕ
  ptable_num_packets table_id h =
      let (code, nrecords) = lib.pt_num_packets table_id h.system in
      guard (not (is_negative code)) aborted >> ok nrecords
