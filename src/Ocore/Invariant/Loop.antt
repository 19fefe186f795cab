-- ===== src/Ocore/Invariant/Loop.antt =====
-- The loop of `DumptoDisk`, and `DumptoDisk` itself: it never fails on a task that keeps its
-- invariant, it moves as many records as it computed, and it changes no record.
use grvy.Base.{
  ℕ, zero, suc, ◌+◌, ◌-◌, ◌≤◌, ◌≡◌, refl, ◌∙◌, true, none, some, List, [], ◌∷◌, arith, length,
  get_elem?, get_elem?-some, ok,
}
use grvy.Ocore.Types.{Block, SparseKey, NodePriority, Config, IsSane, Node}
use grvy.Ocore.Node.{dump_record, dump_loop, dump_to_disk, build_queue, num_to_dump}
use grvy.Ocore.Views.{mem_slot, mem_count}
use grvy.Ocore.Priority.{Queued, Queued-upd, build_queue-Queued, length-build_queue}
use grvy.Ocore.Invariant.{Core, contents}
use grvy.Ocore.Invariant.Dump.{
  dump_record-mem, dump_record-count, dump_record-Core, dump_record-contents,
}

-- What moving i records does.
pub record Dumped (i : ℕ) (n n' : Node) : Type 0 where
  pub core : Core n'
  pub same_config : n'.config ≡ n.config
  pub same_rank : n'.mpi_rank_global ≡ n.mpi_rank_global
  pub same_contents : (k : SparseKey) → contents n' k ≡ contents n k
  pub fewer : mem_count n'.smap + i ≡ mem_count n.smap
  pub freed : length n'.free_records ≡ length n.free_records + i
  pub counter : n'.num_active_records ≡ n.num_active_records - i
  pub disk_counter : n'.num_active_disk_records ≡ n.num_active_disk_records + i

Dumped-step :
    (i : ℕ) (t : NodePriority) (b : Block) (n n' : Node)
    → mem_slot n.smap t.key ≡ some t.ocore_index
    → get_elem? n.pool t.ocore_index ≡ some b
    → Core n
    → Dumped i (dump_record t b n) n'
    → Dumped (suc i) n n'
unfolding dump_record
Dumped-step i t b n n' held value core d = record {
  core = d.core;
  same_config = d.same_config;
  same_rank = d.same_rank;
  same_contents = λ k. d.same_contents k ∙ dump_record-contents t b n core held value k;
  fewer = omega (arith, dump_record-count t b n held);
  freed = omega arith;
  counter = omega arith;
  disk_counter = omega arith;
}

pub dump_loop-Dumped :
    (i : ℕ) (q : List NodePriority) (n : Node)
    → i ≤ length q
    → Queued (mem_slot n.smap) q
    → Core n
    → (n' : Node) × (dump_loop i q n ≡ ok n') × Dumped i n n'
unfolding dump_loop
dump_loop-Dumped zero q n h queued core = (
  n,
  refl,
  record {
    core = core;
    same_config = refl;
    same_rank = refl;
    same_contents = λ k. refl;
    fewer = omega arith;
    freed = omega arith;
    counter = omega arith;
    disk_counter = omega arith;
  },
)
dump_loop-Dumped (suc i) [] n h queued core = absurd (omega arith)
dump_loop-Dumped (suc i) (t ∷ q) n h queued core =
    let below = core.mem_below.apply t.key t.ocore_index queued.0 in
    let (b, value) = get_elem?-some n.pool t.ocore_index (omega (arith, core.pool_size)) in
    let (n', e, d) =
      dump_loop-Dumped i q (dump_record t b n) (omega arith)
        (rw (dump_record-mem t b n) (Queued-upd _ t.key none q queued.1 queued.2))
        (dump_record-Core t b n core queued.0) in
    (n', rw value e, Dumped-step i t b n n' queued.0 value core d)

pub num_to_dump-le : (c : Config) (size : ℕ) → IsSane c → num_to_dump c size ≤ size
unfolding num_to_dump
num_to_dump-le c size s = grind arith

Core-flag : {n : Node} → Core n → Core (record n { overflow_triggered = true })
Core-flag {n} core = record {
  sane = core.sane;
  is_up = core.is_up;
  rank_pos = core.rank_pos;
  pool_size = core.pool_size;
  unique = core.unique;
  mem_inj = core.mem_inj;
  mem_below = core.mem_below;
  disk_inj = core.disk_inj;
  disk_below = core.disk_below;
  free_below = core.free_below;
  free_unused = core.free_unused;
  free_distinct = core.free_distinct;
  filled = core.filled;
}

Dumped-flag :
    {i : ℕ} {n n' : Node} → Dumped i (record n { overflow_triggered = true }) n' → Dumped i n n'
unfolding contents
Dumped-flag d = record {
  core = d.core;
  same_config = d.same_config;
  same_rank = d.same_rank;
  same_contents = d.same_contents;
  fewer = d.fewer;
  freed = d.freed;
  counter = d.counter;
  disk_counter = d.disk_counter;
}

pub dump_to_disk-Dumped :
    (n : Node)
    → Core n
    → (n' : Node) × (dump_to_disk n ≡ ok n') × Dumped (num_to_dump n.config (mem_count n.smap)) n n'
unfolding dump_to_disk
dump_to_disk-Dumped n core =
    let flagged : Node = record n { overflow_triggered = true } in
    let size = length-build_queue n.smap in
    let le = num_to_dump-le n.config (mem_count n.smap) core.sane in
    let (n', e, d) =
      dump_loop-Dumped (num_to_dump n.config (mem_count n.smap)) (build_queue n.smap) flagged
        (rw size le) (build_queue-Queued n.smap core.unique) (Core-flag core) in
    (n', rw size e, Dumped-flag d)
