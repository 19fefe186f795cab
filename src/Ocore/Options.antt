-- ===== src/Ocore/Options.antt =====
-- Which options `Initialize` of src/grvy_ramdisk.cpp takes from its input file, and what the tasks
-- then have.
use grvy.Base.{
  Bool, true, false, Option, none, some, List, ◌≡◌, refl, if◌then◌else◌, ok, arith, Option-cases,
  Bool-cases, inl, inr, ◌>>◌,
}
use grvy.Base.Int.{ℤ, pos, beq_ℤ}
use grvy.Base.Map.{find, insert}
use grvy.Base.Map.Laws.{find-insert}
use grvy.Base.Text.{Text, bytes, text_beq, text_key, text_beq_iff}
use grvy.Input.Types.{Input, Kind}
use grvy.Input.Calls.{register_var}
use grvy.Input.Reads.{read_var, read_bool, int_kind, double_kind, string_kind, char_def}
use grvy.Input.Precedence.{read_var-first}
use grvy.Ocore.Settings.{
  Settings, key, Reader, register_defaults, read_options, check_settings, read_settings,
}

-- The value of an option: the file's, unless it equals the value that stands for none, or else the
-- default.
abbrev pub chosen : {T : Type 0} → (T → Bool) → Option T → T → T
chosen is_none none def = def
chosen is_none (some x) def = if is_none x then def else x

-- A read of a variable with a registered default succeeds.
pub read_chosen :
    {G F D T : Type 0} (k : Kind G F D T) (var : Text) (old def : T) (g : G) (s : Input G F D)
    → s.initialized ≡ true
    → s.ifile ≡ some g
    → k.eq k.no_default k.no_default ≡ true
    → find var (k.registry s) ≡ some def
    → read_var k var old s ≡ ok (1, chosen (λ x. k.eq x k.no_default) (k.getpot.entry g var) def, s)
read_chosen k var old def g s hi hg he hf =
    let (left, run) = read_var-first k var old g s hi hg he in
    elim (Option-cases (k.getpot.entry g var)) [
      | inl e ↦ ground (arith, run, hf, e)
      | inr (x, e) ↦ ground (arith, run, hf, e)
    ]

pub found_last :
    {T : Type 0} (var : Text) (def : T) (m : List (Text × T))
    → find var (insert var def m) ≡ some def
found_last var def m = ground (arith, find-insert var var def m, text_beq_iff var var)

found_before :
    {T : Type 0} (var other : Text) (def x : T) (m : List (Text × T))
    → text_beq var other ≡ false
    → find other m ≡ some x
    → find other (insert var def m) ≡ some x
found_before var other def x m h e = ground (arith, find-insert var other def m, h, e)

module _ {G F D : Type 0} (r : Reader G F D) (g : G) where
  abbrev pub int_option : Text → ℤ → ℤ
  int_option name def =
      chosen (λ x. beq_ℤ x (int_kind {F = F} {D = D} r.ints).no_default) (r.ints.entry g (key name))
        def

  -- Statistics are dumped unless the file says no.
  abbrev pub dump_option : Bool
  dump_option = elim (r.bools.entry g (key (bytes "dump_raw_statistics"))) [
    | none ↦ true
    | some b ↦ b
  ]

  -- The settings that the file stands for.
  abbrev pub settings_in : Settings D → Settings D
  settings_in m = record m {
    use_disk_overflow = beq_ℤ (int_option (bytes "use_disk_overflow") (pos 1)) (pos 1);
    allow_empty_records = beq_ℤ (int_option (bytes "allow_empty_records") (pos 0)) (pos 1);
    dump_stats = dump_option;
    dump_watermark_ratio =
        chosen (λ x. r.double_eq x r.double_def) (r.doubles.entry g (key (bytes "watermark_ratio")))
          m.dump_watermark_ratio;
    max_poolsize_mbs = int_option (bytes "max_pool_size_in_mbs") m.max_poolsize_mbs;
    max_mapsize_mbs = int_option (bytes "max_map_size_in_mbs") m.max_mapsize_mbs;
    blocksize = int_option (bytes "blocksize") m.blocksize;
    statsfile =
        if dump_option
        then chosen (λ x. text_beq x char_def) (r.texts.entry g (key (bytes "statsfile")))
            (bytes "grvy_ocore_stats.dat")
        else m.statsfile;
  }

  -- The registered defaults.
  record Registered (m : Settings D) (s : Input G F D) : Type 0 where
    is_up : s.initialized ≡ true
    file : s.ifile ≡ some g
    overflow : find (key (bytes "use_disk_overflow")) s.default_ints ≡ some (pos 1)
    empties : find (key (bytes "allow_empty_records")) s.default_ints ≡ some (pos 0)
    pool : find (key (bytes "max_pool_size_in_mbs")) s.default_ints ≡ some m.max_poolsize_mbs
    map_size : find (key (bytes "max_map_size_in_mbs")) s.default_ints ≡ some m.max_mapsize_mbs
    block : find (key (bytes "blocksize")) s.default_ints ≡ some m.blocksize
    ratio : find (key (bytes "watermark_ratio")) s.default_doubles ≡ some m.dump_watermark_ratio
    stats : find (key (bytes "statsfile")) s.default_strings ≡ some (bytes "grvy_ocore_stats.dat")

  register_defaults-Registered :
      (m : Settings D) (s : Input G F D)
      → s.initialized ≡ true
      → s.ifile ≡ some g
      → Registered m (register_defaults r m s)
  unfolding register_defaults register_var text_beq
  register_defaults-Registered m s hi hg =
      let overflow = key (bytes "use_disk_overflow") in
      let empties = key (bytes "allow_empty_records") in
      let pool = key (bytes "max_pool_size_in_mbs") in
      let map_size = key (bytes "max_map_size_in_mbs") in
      let block = key (bytes "blocksize") in
      record {
        is_up = hi;
        file = hg;
        overflow = found_before block overflow _ _ _ refl (
            found_before map_size overflow _ _ _ refl (
              found_before pool overflow _ _ _ refl
                (found_before empties overflow _ _ _ refl (found_last overflow _ _))));
        empties = found_before block empties _ _ _ refl (
            found_before map_size empties _ _ _ refl
              (found_before pool empties _ _ _ refl (found_last empties _ _)));
        pool =
            found_before block pool _ _ _ refl
              (found_before map_size pool _ _ _ refl (found_last pool _ _));
        map_size = found_before block map_size _ _ _ refl (found_last map_size _ _);
        block = found_last block _ _;
        ratio = found_last (key (bytes "watermark_ratio")) _ _;
        stats = found_last (key (bytes "statsfile")) _ _;
      }

  read_dump :
      (old : Bool) (s : Input G F D)
      → s.initialized ≡ true
      → s.ifile ≡ some g
      → read_bool r.bools (key (bytes "dump_raw_statistics")) old true s
        ≡ ok (
          1,
          dump_option,
          record s {
            default_bools = insert (key (bytes "dump_raw_statistics")) true s.default_bools;
          },
        )
  unfolding read_bool
  read_dump old s hi hg =
      ground (arith, hi, hg, r.bools.call-entry g (key (bytes "dump_raw_statistics")) true)

  read_options-in :
      (m : Settings D) (s : Input G F D)
      → r.double_eq r.double_def r.double_def ≡ true
      → Registered m s
      → read_options r m s ≡ ok (1, settings_in m)
  unfolding read_options text_beq
  read_options-in m s hd v =
      let k : Kind G F D ℤ = int_kind r.ints in
      let int_read = λ (name : Text) (old def : ℤ) (h : find (key name) s.default_ints ≡ some def).
        read_chosen k (key name) old def g s v.is_up v.file refl h in
      let r1 = int_read (bytes "use_disk_overflow") r.stale (pos 1) v.overflow in
      let r2 = int_read (bytes "allow_empty_records") r.stale (pos 0) v.empties in
      let r3 =
        read_chosen (double_kind r.doubles r.double_eq r.double_def) (key (bytes "watermark_ratio"))
          m.dump_watermark_ratio m.dump_watermark_ratio g s v.is_up v.file hd v.ratio in
      let r4 =
        int_read (bytes "max_pool_size_in_mbs") m.max_poolsize_mbs m.max_poolsize_mbs v.pool in
      let r5 =
        int_read (bytes "max_map_size_in_mbs") m.max_mapsize_mbs m.max_mapsize_mbs v.map_size in
      let r6 = int_read (bytes "blocksize") m.blocksize m.blocksize v.block in
      let r7 = read_dump m.dump_stats s v.is_up v.file in
      let s' = record s {
        default_bools = insert (key (bytes "dump_raw_statistics")) true s.default_bools;
      } in
      let r8 =
        read_chosen (string_kind r.texts) (key (bytes "statsfile")) m.statsfile
          (bytes "grvy_ocore_stats.dat") g s' v.is_up v.file refl v.stats in
      elim (Bool-cases dump_option) [
        | inl e ↦ rw (r1, r2, r3, r4, r5, r6, r7, e, r8) refl
        | inr e ↦ rw (r1, r2, r3, r4, r5, r6, r7, e) refl
      ]

  -- The second part.
  pub read_settings-in :
      (m : Settings D) (s : Input G F D)
      → r.double_eq r.double_def r.double_def ≡ true
      → s.initialized ≡ true
      → s.ifile ≡ some g
      → read_settings r m s ≡ (check_settings r (settings_in m) >> ok (settings_in m))
  unfolding read_settings
  read_settings-in m s hd hi hg =
      let read =
        read_options-in m (register_defaults r m s) hd (register_defaults-Registered m s hi hg) in
      ground (arith, read)
