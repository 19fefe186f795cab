-- ===== src/Ocore/Types.antt =====
-- The data types at the top of src/grvy_ramdisk.cpp. A block is the bit patterns of the `blocksize`
-- words of a record. Sizes and counters are unbounded numbers; header words are in Ocore/Client.
use grvy.Base.{ℕ, ◌<◌, ◌≡◌, ◌↔◌, Bool, true, ◌&&◌, ◌||◌, List, Option, arith, ltb, ◌==◌}
use grvy.Base.Map.{Key}

abbrev pub Block : Type 0
Block = List ℕ

pub data OcoreMsgType : Type 0 where
  ocore_write_new ocore_update_old ocore_read ocore_exit : OcoreMsgType

pub record Datagram : Type 0 where
  pub in_mem : Bool
  pub index : ℕ
  pub read_count : ℕ
  pub write_count : ℕ

-- `pair<int,size_t>`: the sending rank and the sparse index.
pub record SparseKey : Type 0 where
  pub rank : ℕ
  pub sparse_index : ℕ

abbrev pub key_beq : SparseKey → SparseKey → Bool
key_beq a b = (a.rank == b.rank) && (a.sparse_index == b.sparse_index)

-- The order of `std::pair`.
abbrev pub key_before : SparseKey → SparseKey → Bool
key_before a b = ltb a.rank b.rank || ((a.rank == b.rank) && ltb a.sparse_index b.sparse_index)

pub key_beq_iff : (a b : SparseKey) → (key_beq a b ≡ true) ↔ (a ≡ b)
key_beq_iff a b = ground arith

instance abbrev pub sparse_key : Key SparseKey
sparse_key = record { beq = key_beq; before = key_before; beq_iff = key_beq_iff }

pub record NodePriority : Type 0 where
  pub priority : ℕ
  pub key : SparseKey
  pub ocore_index : ℕ

-- The inputs that `Initialize` reads, and what it computes from them. The watermark ratio is the
-- fraction ratio_num / ratio_den.
pub record Config : Type 0 where
  pub use_disk_overflow : Bool
  pub blocksize : ℕ
  pub word_size : ℕ
  pub max_num_records : ℕ
  pub ratio_num : ℕ
  pub ratio_den : ℕ

-- The input sanity check of `Initialize`.
pub record IsSane (c : Config) : Type 0 where
  pub ratio_pos : 0 < c.ratio_num
  pub ratio_lt_one : c.ratio_num < c.ratio_den
  pub blocksize_pos : 0 < c.blocksize
  pub word_size_pos : 0 < c.word_size

-- The state of an Ocore task: the members of GRVY_MPI_Ocore_ClassImp that its handlers use. The
-- overflow file maps the byte offset at which a record was written to the record.
pub record Node : Type 0 where
  pub config : Config
  pub open config use *
  pub initialized : Bool
  pub mpi_rank_global : ℕ
  pub overflow_triggered : Bool
  pub num_active_records : ℕ
  pub num_active_disk_records : ℕ
  pub pool : List Block
  pub smap : List (SparseKey × Datagram)
  pub free_records : List ℕ
  pub fp_tmp : ℕ → Option Block
