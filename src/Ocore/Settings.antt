-- ===== src/Ocore/Settings.antt =====
-- The runtime options in `Initialize` of src/grvy_ramdisk.cpp: what the master task reads from the
-- input file, through src/grvy_input.cpp, and what the other tasks receive of it.
use grvy.Base.{
  ℕ, ◌*◌, ◌/◌, Bool, true, not, Option, [], ◌++◌, ◌==◌, if◌then◌else◌, Result, ok, aborted,
  assert_failed, guard, ◌>>=◌, ◌>>◌,
}
use grvy.Base.Int.{ℤ, pos, beq_ℤ, ltb_ℤ}
use grvy.Base.Text.{Text, bytes}
use grvy.Input.Types.{Input, GetPotFile, GetPotCall, Kind}
use grvy.Input.Calls.{new_input, open_input, register_var}
use grvy.Input.Reads.{rounds, read_var, read_bool, int_kind, double_kind, string_kind}
use grvy.Ocore.Types.{Config}

-- The members that hold the options. D stands for double.
pub record Settings (D : Type 0) : Type 0 where
  pub use_mpi_ocore : Bool
  pub use_disk_overflow : Bool
  pub allow_empty_records : Bool
  pub dump_stats : Bool
  pub dump_watermark_ratio : D
  pub max_poolsize_mbs : ℤ
  pub max_mapsize_mbs : ℤ
  pub blocksize : ℤ
  pub word_size : ℕ
  pub statsfile : Text

-- The constructor's default settings. It does not set `dump_stats`.
unfoldable pub default_settings : {D : Type 0} → D → Bool → Settings D
default_settings tenth stale = record {
  use_mpi_ocore = true;
  use_disk_overflow = true;
  allow_empty_records = true;
  dump_stats = stale;
  dump_watermark_ratio = tenth;
  max_poolsize_mbs = pos 20;
  max_mapsize_mbs = pos 10;
  blocksize = pos 8192;
  word_size = 8;
  statsfile = [];
}

-- The names of the options.
abbrev pub key : Text → Text
key name = bytes "grvy/mpi_ocore/" ++ name

-- What is used of GetPot, at each type, and the test that a ratio is between 0 and 1. A variable that
-- the code leaves unset before a read holds `stale`.
pub record Reader (G F D : Type 0) : Type 0 where
  pub getpot : GetPotFile G
  pub ints : GetPotCall G ℤ
  pub texts : GetPotCall G Text
  pub bools : GetPotCall G Bool
  pub doubles : GetPotCall G D
  pub double_eq : D → D → Bool
  pub double_def : D
  pub is_ratio : D → Bool
  pub stale : ℤ

module _ {G F D : Type 0} (r : Reader G F D) where
  -- The first part: is Ocore enabled? The code of the read is not looked at.
  unfoldable pub read_enable : Option Text → Result (ℤ × Input G F D)
  read_enable file =
      let (code, s) = open_input r.getpot file new_input in
      if code == 0 then ok (pos 0, s) else (do
        let k : Kind G F D ℤ = int_kind r.ints
        (flag, enable, s') ←
            read_var k (key (bytes "enable_ocore")) r.stale
              (register_var k (key (bytes "enable_ocore")) (pos 0) s)
        ok (enable, s'))

  -- The registered defaults of the second part.
  unfoldable pub register_defaults : Settings D → Input G F D → Input G F D
  register_defaults m s =
      let k : Kind G F D ℤ = int_kind r.ints in
      let s1 =
        register_var (string_kind r.texts) (key (bytes "statsfile")) (bytes "grvy_ocore_stats.dat")
          s in
      let s2 = register_var k (key (bytes "use_disk_overflow")) (pos 1) s1 in
      let s3 = register_var k (key (bytes "allow_empty_records")) (pos 0) s2 in
      let d : Kind G F D D = double_kind r.doubles r.double_eq r.double_def in
      let s4 = register_var d (key (bytes "watermark_ratio")) m.dump_watermark_ratio s3 in
      let s5 = register_var k (key (bytes "max_pool_size_in_mbs")) m.max_poolsize_mbs s4 in
      let s6 = register_var k (key (bytes "max_map_size_in_mbs")) m.max_mapsize_mbs s5 in
      register_var k (key (bytes "blocksize")) m.blocksize s6

  -- The reads: the product of their codes, and the settings.
  unfoldable pub read_options : Settings D → Input G F D → Result (ℕ × Settings D)
  read_options m s = do
    let k : Kind G F D ℤ = int_kind r.ints
    (f1, overflow, s1) ← read_var k (key (bytes "use_disk_overflow")) r.stale s
    (f2, empties, s2) ← read_var k (key (bytes "allow_empty_records")) r.stale s1
    (f3, ratio, s3) ←
        read_var (double_kind r.doubles r.double_eq r.double_def) (key (bytes "watermark_ratio"))
          m.dump_watermark_ratio s2
    (f4, poolsize, s4) ← read_var k (key (bytes "max_pool_size_in_mbs")) m.max_poolsize_mbs s3
    (f5, mapsize, s5) ← read_var k (key (bytes "max_map_size_in_mbs")) m.max_mapsize_mbs s4
    (f6, block, s6) ← read_var k (key (bytes "blocksize")) m.blocksize s5
    (f7, dump, s7) ← read_bool r.bools (key (bytes "dump_raw_statistics")) m.dump_stats true s6
    (f8, stats, s8) ←
        (if dump
          then read_var (string_kind r.texts) (key (bytes "statsfile")) m.statsfile s7
          else ok (1, m.statsfile, s7))
    ok (
      f1 * f2 * f3 * f4 * f5 * f6 * f7 * f8,
      record m {
        use_disk_overflow = beq_ℤ overflow (pos 1);
        allow_empty_records = beq_ℤ empties (pos 1);
        dump_stats = dump;
        dump_watermark_ratio = ratio;
        max_poolsize_mbs = poolsize;
        max_mapsize_mbs = mapsize;
        blocksize = block;
        statsfile = stats;
      },
    )

  -- The input sanity check.
  unfoldable pub check_settings : Settings D → Result (Unit {0})
  check_settings m = do
    guard (r.is_ratio m.dump_watermark_ratio) assert_failed
    guard (ltb_ℤ (pos 0) m.max_poolsize_mbs) assert_failed
    guard (ltb_ℤ (pos 0) m.max_mapsize_mbs) assert_failed
    guard (ltb_ℤ (pos 0) m.blocksize) assert_failed

  -- The second part, on the master task. The input is closed at its end.
  unfoldable pub read_settings : Settings D → Input G F D → Result (Settings D)
  read_settings m s = do
    (flag, m') ← read_options m (register_defaults m s)
    guard (not (flag == 0)) aborted
    check_settings m'
    ok m'

-- What a task other than the master has after the broadcasts.
unfoldable pub receive : {D : Type 0} → Settings D → Settings D → Settings D
receive master m = record m {
  dump_watermark_ratio = master.dump_watermark_ratio;
  max_poolsize_mbs = master.max_poolsize_mbs;
  max_mapsize_mbs = master.max_mapsize_mbs;
  blocksize = master.blocksize;
  dump_stats = master.dump_stats;
  statsfile = master.statsfile;
}

-- `max_num_records`, which is cut to a whole number.
unfoldable pub max_records : {D : Type 0} → Settings D → ℕ
max_records m = rounds m.max_poolsize_mbs * 1024 * 1024 / (rounds m.blocksize * m.word_size)

-- The settings as the tasks use them; `num` and `den` are the ratio as a fraction.
unfoldable pub config_of : {D : Type 0} → (D → ℕ) → (D → ℕ) → Settings D → Config
unfolding max_records
config_of num den m = record {
  use_disk_overflow = m.use_disk_overflow;
  blocksize = rounds m.blocksize;
  word_size = m.word_size;
  max_num_records = max_records m;
  ratio_num = num m.dump_watermark_ratio;
  ratio_den = den m.dump_watermark_ratio;
}
