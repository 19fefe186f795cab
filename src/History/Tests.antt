-- ===== src/History/Tests.antt =====
-- A packet of two timers, and a table with room for 100 packets to which one is appended, for
-- src/grvy_timer.cpp.
use grvy.Base.{
  ℕ, ◌+◌, Bool, true, false, Option, none, some, List, [], ◌∷◌, length, ◌==◌, ltb, ◌≡◌, refl,
  Result, ok, fail, if◌then◌else◌, arith,
}
use grvy.Base.Map.{find, insert, modify}
use grvy.Base.Int.{◌+ℤ◌, ltb_ℤ, ℤ, pos, negsuc}
use grvy.Base.Text.{Text, bytes, text_beq, text_before, text_key}
use grvy.Timer.Types.{Accumulators, Timer, sample_lists}
use grvy.Timer.Data.{first_begin, no_stamp, start_entry, reset_all}
use grvy.Timer.Calls.{gtimer, construct, init, reset, begin_timer, exceeds_size}
use grvy.Timer.Queries.{elapsed_seconds, stats_exclusive, stats_count}
use grvy.Hdf5.Types.{H5, new_h5, silence, restore, is_group_open, group_id, touch_group}
use grvy.Hdf5.Files.{file_exists, open_file, take_file, close_file, close_groups}
use grvy.Hdf5.Objects.{group_exists, group_open, dataset_exists, dataset_open}
use grvy.Hdf5.Attributes.{
  attribute_read, attribute_write, attribute_target, attribute_exists, attribute_open, attribute_id,
  write_and_close,
}
use grvy.Hdf5.Simulation.{
  Sim, empty_sim, open_any, put_at, sim, sim_attributes, sim_attributes-Stores,
}
use grvy.History.Types.{Packet, Value, number, TableCalls, Arguments}
use grvy.History.Packets.{sub_timers, packet_of}
use grvy.History.Statistics.{
  no_statistics, value_at, greater, min_check, max_check, add_packet, add_packets,
}
use grvy.History.Statistics.Extremes.{IsBest}
use grvy.History.Statistics.Bounds.{add_packets-IsBest}
use grvy.Interface.Timers.{verify_timer_allocated, timer_init, timer_begin}
use grvy.Interface.Timers.Programs.{c_timer_calls, starts, begins, nothing}
use grvy.Interface.Timers.Saved.{packet_of-c_timer_calls}
use grvy.History.Save.{open_host_table, save_hist_timing}
use grvy.History.Tables.{append_packet, num_measurements, save_packet}
use grvy.History.Tables.Contents.{Table, Tables}

abbrev samples : Accumulators (List ℤ)
samples = sample_lists (λ s l. pos 0)

abbrev tick_clock : ℕ → ℤ
tick_clock k = pos k

abbrev solved : Timer (List ℤ)
solved = record {
  initialized = true;
  finalized = true;
  timer_finalize = pos 50;
  timer_name = bytes "run";
  num_begins = pos 0;
  callgraph = [];
  timer_map =
      (gtimer, first_begin samples (pos 1)) ∷ (bytes "solve", first_begin samples (pos 2)) ∷ [];
  max_stdout_width = 120;
  readings = 9;
}

abbrev arguments : Arguments ℕ
arguments = record {
  timing = pos 0;
  machinename = bytes "node";
  experiment = bytes "test";
  comment = [];
  num_procs = pos 4;
  job_id = negsuc 0;
  code_revision = bytes "unknown";
  flops = 0;
  timestamp = [];
  environment = [];
  os_sysname = [];
  os_release = [];
  os_version = [];
  cputype = [];
  stale_name = λ t. [];
}

-- The state holds one table, under every identifier.
abbrev Disk : Type 0 → Type 0
Disk P = Sim Value (Table P)

module _ {P : Type 0} where
  abbrev put_cell : ℕ → P → Table P → Table P
  put_cell n p t = record t { cell = λ m. if n == m then some p else t.cell m }

  abbrev write_cell : ℕ → P → Disk P → ℤ × Disk P
  write_cell n p s =
      if ltb n s.rest.extent
      then (pos 0, record s { rest = put_cell n p s.rest })
      else (negsuc 0, s)

  abbrev read_cell : Option P → ℤ × Option P
  read_cell none = (negsuc 0, none)
  read_cell (some p) = (pos 0, some p)

  abbrev disk_calls : TableCalls (Disk P) P
  disk_calls = record {
    d_create = λ g name e s. open_any s;
    d_write = λ t n p s. write_cell n p s;
    d_read = λ t n s. read_cell (s.rest.cell n);
    d_set_extent = λ t e s. record s { rest = record s.rest { extent = e } };
    d_close = λ t s. s;
  }

  unfoldable disk_tables : Tables sim_attributes disk_calls
  unfolding sim_attributes
  disk_tables = record {
    table = λ t s. s.rest;
    untouched = λ t. record {
      a_open-view = λ g a s. ground arith;
      a_create-view = λ g a s. refl;
      a_write-view = λ id v s. ground arith;
      a_close-view = λ id s. refl;
      s_create-view = λ s. refl;
      s_close-view = λ id s. refl;
    };
    write-fits = λ t n p s h. ground (arith, h);
    write-cell = λ t n m p s h. ground (arith, h);
    write-extent = λ t n p s. ground arith;
    read-cell = λ t n p s h. ground (arith, h);
    set_extent-cell = λ t e m s h. refl;
    set_extent-extent = λ t e s. refl;
    number-stored = λ g n. sim_attributes-Stores g num_measurements (number n);
    write-value = λ t g a n p s. ground arith;
    set_extent-value = λ t g a e s. refl;
  }

abbrev host : Text
host = bytes "GRVY/Performance_timings/node"

-- The host's group is open with identifier 2, one packet was written, and the table has one chunk.
abbrev one_packet : Table ℕ
one_packet = record { extent = 100; cell = λ m. if m == 0 then some 7 else none }

abbrev disk : Disk ℕ
disk = put_at (pos 2) num_measurements (number 1) (open_any (open_any (empty_sim one_packet)).1).1

abbrev at_host : H5 (Disk ℕ)
at_host = record (new_h5 disk (some 7)) { file_id = pos 1; group_ids = (host, pos 2) ∷ [] }

-- Three packets of two experiments.
abbrev packet : Text → ℕ → Packet ℕ
packet e t = record {
  experiment = e;
  timestamp = [];
  user_comment = [];
  total_time = pos t;
  num_procs = pos 1;
  job_id = pos 0;
  code_revision = [];
  flops = 0;
  env_variables = [];
  subtimers = [];
}

abbrev packets : List (Packet ℕ)
packets = packet (bytes "a") 5 ∷ packet (bytes "b") 1 ∷ packet (bytes "a") 3 ∷ []

add_packets-IsBest_example :
    let st = add_packets samples true false 0 packets no_statistics in
    IsBest ltb_ℤ (bytes "a") packets (value_at (bytes "a") st.min_vals)
    × IsBest greater (bytes "a") packets (value_at (bytes "a") st.max_vals)
add_packets-IsBest_example = add_packets-IsBest samples true false packets (bytes "a")

least_of_a :
    value_at (bytes "a") (add_packets samples true false 0 packets no_statistics).min_vals
    ≡ some (pos 3, 2)
unfolding add_packets add_packet min_check max_check find insert text_beq text_before
least_of_a = refl

-- A file whose host has one packet: the host's group gets identifier 6.
abbrev before_save : H5 (Disk (Packet ℕ))
before_save =
    new_h5
      (put_at (pos 6) num_measurements (number 1) (
        empty_sim
          (record { extent = 100; cell = λ m. if m == 0 then some (packet [] 2) else none })))
      (some 7)

-- Did it return?
abbrev returns : {T : Type 0} → Result T → Bool
returns (ok x) = true
returns (fail e) = false

-- A run of SaveHistTiming does.
save_returns :
    returns (
      save_hist_timing samples tick_clock sim disk_calls arguments
        (bytes "file")
        true
        false
        solved
        before_save)
    ≡ true
unfolding save_hist_timing open_host_table file_exists open_file take_file group_exists group_open
    dataset_exists dataset_open silence restore is_group_open group_id touch_group find insert
    text_beq text_before save_packet attribute_read attribute_write attribute_target
    attribute_exists attribute_open attribute_id write_and_close append_packet packet_of sub_timers
    elapsed_seconds stats_exclusive stats_count close_file close_groups gtimer
save_returns = refl

-- A C program has initialised the timers and begun one.
abbrev solving : Timer (List ℤ)
solving = record solved {
  finalized = false;
  timer_finalize = no_stamp;
  num_begins = pos 2;
  callgraph = bytes "solve" ∷ gtimer ∷ [];
  readings = 3;
}

begun_solving :
    c_timer_calls samples tick_clock (starts (bytes "run") ∷ begins (bytes "solve") ∷ []) none
    ≡ ok (nothing ∷ nothing ∷ [], some solving)
unfolding timer_init timer_begin verify_timer_allocated construct init reset reset_all begin_timer
    start_entry exceeds_size gtimer find insert modify text_beq text_before ◌+ℤ◌ ltb_ℤ
begun_solving = refl

allocated : verify_timer_allocated samples tick_clock (some solving) ≡ ok solving
unfolding verify_timer_allocated
allocated = refl

packet_of-c_timer_calls_example :
    (packet : Packet ℕ) × (packet_of samples tick_clock arguments true false solving ≡ ok packet)
    × (length packet.subtimers + 1 ≡ 2)
    × (packet.total_time ≡ elapsed_seconds samples tick_clock gtimer true solving)
packet_of-c_timer_calls_example =
    packet_of-c_timer_calls samples tick_clock (starts (bytes "run") ∷ begins (bytes "solve") ∷ [])
      (nothing ∷ nothing ∷ []) (some solving) solving begun_solving allocated arguments true false
