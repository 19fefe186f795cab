-- ===== src/Ocore/Node.antt =====
-- The operations of an Ocore task in src/grvy_ramdisk.cpp. A message's payload is an argument
-- (MPI_Recv) or a result (MPI_Send). The performance timers are left out: no handler reads them.
use grvy.Base.{
  ℕ, zero, suc, ◌+◌, ◌-◌, ◌*◌, ◌/◌, true, false, Option, none, some, List, [], ◌∷◌, length,
  get_elem?, set, replicate, ltb, leb, ◌==◌, if◌then◌else◌, Result, ok, fail, Fault, aborted,
  assert_failed, bad_access, ◌>>=◌, ◌>>◌, guard,
}
use grvy.Base.Map.{find, insert, modify}
use grvy.Ocore.Types.{Block, Datagram, SparseKey, NodePriority, Config, Node, sparse_key}

-- A value that must be there; C++ leaves the access undefined if it is not.
abbrev pub or_bad {ℓ} : {A : Type ℓ} → Fault → Option A → Result A
or_bad e none = fail e
or_bad e (some a) = ok a

-- The task after `Initialize`, with its pool of zeroed records.
unfoldable pub start : Config → ℕ → Node
start c rank = record {
  config = c;
  initialized = true;
  mpi_rank_global = rank;
  overflow_triggered = false;
  num_active_records = 0;
  num_active_disk_records = 0;
  pool = replicate c.max_num_records (replicate c.blocksize 0);
  smap = [];
  free_records = [];
  fp_tmp = λ _. none;
}

-- `offset*blocksize*word_size`.
unfoldable pub disk_offset : Config → ℕ → ℕ
disk_offset c index = index * c.blocksize * c.word_size

-- `fseek` and `fwrite` of one record.
abbrev pub write_at : (ℕ → Option Block) → ℕ → Block → ℕ → Option Block
write_at f o b p = if o == p then some b else f p

-- `std::priority_queue` with ComparePriority: the record read least is on top. Records that were
-- read equally often come out in the order of their keys, where the container promises none.
unfoldable pub push : NodePriority → List NodePriority → List NodePriority
push node [] = node ∷ []
push node (top ∷ q) =
    let rest = push node q in if leb node.priority top.priority then node ∷ top ∷ q else top ∷ rest

-- The first loop of `DumptoDisk`: the records in memory, by priority.
unfoldable pub build_queue : List (SparseKey × Datagram) → List NodePriority
build_queue [] = []
build_queue ((k, d) ∷ m) =
    let rest = build_queue m in
    if d.in_mem
    then push (record { priority = d.read_count; key = k; ocore_index = d.index }) rest
    else rest

-- `(size_t) 1.0*dump_watermark_ratio*q.size()`.
unfoldable pub num_to_dump : Config → ℕ → ℕ
num_to_dump c size = c.ratio_num * size / c.ratio_den

-- One round of the second loop of `DumptoDisk`: the record on top goes to the end of the file.
unfoldable pub dump_record : NodePriority → Block → Node → Node
dump_record top b n =
    let disk_index = n.num_active_disk_records in
    record n {
      fp_tmp = write_at n.fp_tmp (disk_offset n.config disk_index) b;
      smap = modify top.key (λ d. record d { in_mem = false; index = disk_index }) n.smap;
      free_records = top.ocore_index ∷ n.free_records;
      num_active_disk_records = n.num_active_disk_records + 1;
      num_active_records = n.num_active_records - 1;
    }

unfoldable pub dump_loop : ℕ → List NodePriority → Node → Result Node
dump_loop zero q n = ok n
dump_loop (suc i) [] n = fail bad_access
dump_loop (suc i) (top ∷ q) n = or_bad bad_access (get_elem? n.pool top.ocore_index) >>= λ b.
    dump_loop i q (dump_record top b n)

-- `DumptoDisk`.
unfoldable pub dump_to_disk : Node → Result Node
dump_to_disk n =
    let q = build_queue n.smap in
    dump_loop (num_to_dump n.config (length q)) q (record n { overflow_triggered = true })

-- The end of `GetFreeRecord`, after the dump.
unfoldable pub pop_free : Node → Result (ℕ × Node)
pop_free n = elim n.free_records [
  | [] ↦ fail assert_failed
  | free_index ∷ rest ↦
      ok (
        free_index,
        record n { free_records = rest; num_active_records = n.num_active_records + 1 },
      )
]

-- `GetFreeRecord`.
unfoldable pub get_free_record : Node → Result (ℕ × Node)
get_free_record n =
    if ltb n.num_active_records n.max_num_records
    then elim n.free_records [
      | [] ↦ ok (n.num_active_records, n)
      | free_index ∷ rest ↦ ok (free_index, record n { free_records = rest })
    ]
    else (if n.use_disk_overflow then (do n' ← dump_to_disk n; pop_free n') else fail aborted)

-- The map part of `StoreData` for a key that is new: it always goes to memory.
unfoldable pub new_record : Node → SparseKey → Result (ℕ × Node)
new_record n key = do
  (offset, n') ← get_free_record n
  ok (
    offset,
    record n' {
      smap =
          insert key (record { in_mem = true; index = offset; read_count = 0; write_count = 1 })
            n'.smap;
      num_active_records = n'.num_active_records + 1;
    },
  )

-- MPI_Recv into the pool.
unfoldable pub recv_in_pool : Node → ℕ → Block → Result Node
recv_in_pool n offset b =
    guard (ltb offset (length n.pool)) bad_access >> ok (record n { pool = set n.pool offset b })

-- MPI_Recv into the buffer, and the buffer to the file.
unfoldable pub recv_on_disk : Node → ℕ → Block → Node
recv_on_disk n offset b = record n { fp_tmp = write_at n.fp_tmp (disk_offset n.config offset) b }

-- `StoreData`.
unfoldable pub store_data : Node → SparseKey → Block → Result Node
store_data n key b = do
  guard n.initialized aborted
  guard (ltb 0 n.mpi_rank_global) assert_failed
  elim (find key n.smap) [
    | none ↦ do (offset, n') ← new_record n key; recv_in_pool n' offset b
    | some d ↦
        let n' = record n {
          smap = modify key (λ e. record e { write_count = e.write_count + 1 }) n.smap;
        } in
        if d.in_mem then recv_in_pool n' d.index b else ok (recv_on_disk n' d.index b)
  ]

-- `PullData`: the block that is sent back, and the task after it.
unfoldable pub pull_data : Node → SparseKey → Result (Block × Node)
pull_data n key = do
  guard n.initialized aborted
  d ← or_bad assert_failed (find key n.smap)
  let n' = record n { smap = modify key (λ e. record e { read_count = e.read_count + 1 }) n.smap }
  b ←
      (if d.in_mem
        then or_bad bad_access (get_elem? n.pool d.index)
        else or_bad assert_failed (n.fp_tmp (disk_offset n.config d.index)))
  ok (b, n')
