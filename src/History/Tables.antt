-- ===== src/History/Tables.antt =====
-- One table of src/grvy_timer.cpp: the packets that SaveHistTiming appends and ReadAllHostData reads.
-- The number of measurements is taken to fit an int.
pub mod Frames
pub mod Contents
pub mod Appended
use grvy.Base.{
  ℕ, zero, suc, ◌+◌, ◌%◌, Bool, true, false, not, Option, none, some, List, [], ◌∷◌, ◌==◌,
  if◌then◌else◌, Result, ok, fail, aborted, assert_failed, bad_access, ◌>>=◌, ◌>>◌, guard,
}
use grvy.Base.Int.{ℤ, pos}
use grvy.Base.Text.{Text, bytes}
use grvy.Hdf5.Library.{is_negative, Library}
use grvy.Hdf5.Types.{H5, with_system}
use grvy.Hdf5.Attributes.{attribute_write, attribute_read}
use grvy.History.Types.{Value, number, string, TableCalls}

-- `PERF_HIST_CHUNKSIZE`.
abbrev pub perf_hist_chunksize : ℕ
perf_hist_chunksize = 100

abbrev pub num_measurements : Text
num_measurements = bytes "num_measurements"

-- The int that AttributeRead has stored. Where it stored none, the variable has no value.
abbrev pub number_read : Option Value → Result ℕ
number_read none = fail bad_access
number_read (some (number n)) = ok n
number_read (some (string t)) = fail bad_access

module _ {S P : Type 0} (lib : Library S Value) (calls : TableCalls S P) where
  -- The end of AppendHistData.
  unfoldable pub append_packet : ℤ → ℕ → P → H5 S → Result (H5 S)
  append_packet table_id n packet h =
      let (code, s) = calls.d_write table_id n packet h.system in
      guard (not (is_negative code)) assert_failed >> ok (with_system s h)

  -- The extension of the table on a boundary.
  abbrev pub extend : ℤ → ℕ → H5 S → H5 S
  extend table_id n h =
      if n % perf_hist_chunksize == 0
      then with_system (calls.d_set_extent table_id (n + perf_hist_chunksize) h.system) h
      else h

  -- The part of SaveHistTiming from the query of the number of measurements to the extension, for
  -- the packet that AppendHistData puts together.
  unfoldable pub save_packet : Text → ℤ → Result P → H5 S → Result (H5 S)
  save_packet hostlevel table_id packet h = do
    (code, value, r) ← attribute_read lib hostlevel num_measurements h
    n ← number_read value
    p ← packet
    w ← append_packet table_id n p r
    c ← attribute_write lib hostlevel num_measurements (number (n + 1)) w
    ok (extend table_id (n + 1) c)

  -- The loop of ReadAllHostData, with the number of packets left and the index of the next.
  unfoldable pub read_packets : ℤ → ℕ → ℕ → S → Result (List P)
  read_packets table_id zero i s = ok []
  read_packets table_id (suc k) i s =
      let (code, packet) = calls.d_read table_id i s in
      guard (not (is_negative code)) aborted >> (elim packet [
        | none ↦ fail bad_access
        | some p ↦ read_packets table_id k (i + 1) s >>= (λ rest. ok (p ∷ rest))
      ])

  -- ReadAllHostData.
  unfoldable pub read_all_host_data : Text → ℤ → H5 S → Result (List P × H5 S)
  read_all_host_data machine table_id h = do
    (code, value, r) ← attribute_read lib machine num_measurements h
    n ← number_read value
    packets ← read_packets table_id n 0 r.system
    ok (packets, r)
