-- ===== src/History/Save.antt =====
-- SaveHistTiming of src/grvy_timer.cpp, without USE_HDF5_PTABLE.
use grvy.Base.{
  ℕ, Bool, true, false, not, none, some, ◌++◌, ◌&&◌, if◌then◌else◌, Result, ok, aborted, ◌>>=◌,
  ◌>>◌, guard,
}
use grvy.Base.Map.{find}
use grvy.Base.Int.{ℤ, pos}
use grvy.Base.Text.{Text, bytes, text_key}
use grvy.Timer.Types.{Accumulators, Timer}
use grvy.Hdf5.Library.{Library}
use grvy.Hdf5.Types.{H5, group_id, with_system}
use grvy.Hdf5.Files.{create_file, file_exists, open_file, close_file}
use grvy.Hdf5.Objects.{group_create, group_exists, group_open, dataset_exists, dataset_open}
use grvy.Hdf5.Attributes.{attribute_write, attribute_write_string}
use grvy.History.Types.{Packet, Value, number, string, TableCalls, Arguments}
use grvy.History.Packets.{packet_of}
use grvy.History.Tables.{perf_hist_chunksize, num_measurements, save_packet}

-- `PTABLE_VERSION`.
abbrev pub ptable_version : ℕ
ptable_version = 1

module _ {S : Type 0} (lib : Library S Value) where
  -- An existing file is opened, another one created.
  abbrev pub open_or_create : Text → H5 S → Result (H5 S)
  open_or_create filename h =
      let (found, h') = file_exists lib filename h in
      if found then open_file lib filename false h' else create_file lib filename false h'

  abbrev pub group_or_create : Text → H5 S → Result (H5 S)
  group_or_create groupname h =
      let (found, h') = group_exists lib groupname h in
      if found
      then group_open lib groupname h'
      else (group_create lib groupname h' >>= (λ r. ok r.1))

-- `datasetIds[tablename]`, once it is there.
abbrev pub dataset_id : {S : Type 0} → Text → H5 S → ℤ
dataset_id name h = elim (find name h.dataset_ids) [ none ↦ pos 0 | some id ↦ id ]

module _ {S P : Type 0} (lib : Library S Value) (calls : TableCalls S P) where
  -- The table: whether it is new, its identifier, and the state. The code of H5Dcreate is not
  -- looked at.
  abbrev pub open_table : Text → H5 S → Result (Bool × ℤ × H5 S)
  open_table hostlevel h =
      let (found, h') = dataset_exists lib hostlevel (bytes "PTable") h in
      if found
      then (dataset_open lib hostlevel (bytes "PTable") h'
          >>= (λ o. ok (false, dataset_id (bytes "PTable") o, o)))
      else (let (id, s) =
            calls.d_create (group_id hostlevel h') (bytes "PTable") perf_hist_chunksize h'.system in
          ok (true, id, with_system s h'))

module _ {S F : Type 0} (lib : Library S Value) where
  -- The attributes of a new table.
  abbrev pub write_attributes : Text → Arguments F → H5 S → Result (H5 S)
  write_attributes hostlevel args h =
      attribute_write lib hostlevel (bytes "format_version") (number ptable_version) h
      >>= attribute_write_string lib hostlevel (bytes "os_sysname") (string args.os_sysname)
      >>= attribute_write_string lib hostlevel (bytes "os_release") (string args.os_release)
      >>= attribute_write_string lib hostlevel (bytes "os_version") (string args.os_version)
      >>= attribute_write_string lib hostlevel (bytes "cputype") (string args.cputype)
      >>= attribute_write lib hostlevel num_measurements (number 0)

module _ {S P F : Type 0} (lib : Library S Value) (calls : TableCalls S P) where
  -- The host's table, with its attributes if it is new.
  abbrev pub described_table : Text → Arguments F → H5 S → Result (ℤ × H5 S)
  described_table hostlevel args h = do
    (new_performance_table, table_id, t) ← open_table lib calls hostlevel h
    ready ← if new_performance_table then write_attributes lib hostlevel args t else ok t
    ok (table_id, ready)

  -- From the opening of the file to the attributes of the host's table: its identifier, and the state.
  unfoldable pub open_host_table : Text → Text → Arguments F → Text → H5 S → Result (ℤ × H5 S)
  open_host_table toplevel hostlevel args filename h = do
    opened ← open_or_create lib filename h
    top ← group_or_create lib toplevel opened
    host ← group_or_create lib hostlevel top
    described_table hostlevel args host

module _ {A S F : Type 0} (acc : Accumulators A) (clock : ℕ → ℤ) (lib : Library S Value)
    (calls : TableCalls S (Packet F)) where
  -- `SaveHistTiming`, on a new GRVY_HDF5_Class.
  unfoldable pub save_hist_timing :
      Arguments F → Text → Bool → Bool → Timer A → H5 S → Result (H5 S)
  save_hist_timing args filename save_internal_timer output_printenv s h =
      let toplevel = bytes "GRVY/Performance_timings/" in
      let hostlevel = toplevel ++ args.machinename in
      let packet = packet_of acc clock args save_internal_timer output_printenv s in
      guard (not (save_internal_timer && not s.initialized)) aborted >> (do
        (table_id, ready) ← open_host_table lib calls toplevel hostlevel args filename h
        saved ← save_packet lib calls hostlevel table_id packet ready
        ok (close_file lib (with_system (calls.d_close table_id saved.system) saved)))
