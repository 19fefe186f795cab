-- ===== src/Ocore/Finalize.antt =====
-- `Finalize` and `DumpStatistics` of src/grvy_ramdisk.cpp. What is written is kept as data, without
-- the header lines and the layout.
pub mod Left
pub mod Dumped
mod Tests
use grvy.Base.{
  ℕ, zero, suc, ◌+◌, ◌-◌, Bool, true, false, not, Option, none, some, List, [], ◌∷◌, ◌++◌, ◌==◌,
  ◌&&◌, if◌then◌else◌, Result, ok, aborted, assert_failed, guard, ◌>>=◌, ◌>>◌, map,
}
use grvy.Ocore.Types.{SparseKey, Datagram, Node, ocore_exit}
use grvy.Ocore.Poll.{Message, msg_code}

-- The message that the master task sends.
unfoldable pub exit_message : ℕ → Message
unfolding msg_code
exit_message blocksize = record {
  sending_rank = 0;
  code = msg_code ocore_exit;
  destination = 0;
  offset = 0;
  size = blocksize;
  payload = [];
}

-- The loop over the n ranks from the i-th.
unfoldable pub send_exits : Message → ℕ → ℕ → List (ℕ × Message)
send_exits m i zero = []
send_exits m i (suc n) = (i, m) ∷ send_exits m (i + 1) n

-- What a task sends in `Finalize`, and to which ranks.
unfoldable pub finalize_sends : Bool → Bool → ℕ → ℕ → ℕ → List (ℕ × Message)
unfolding exit_message send_exits
finalize_sends use_mpi_ocore is_global_master blocksize starting_rank nprocs =
    if use_mpi_ocore && is_global_master
    then send_exits (exit_message blocksize) starting_rank (nprocs - starting_rank)
    else []

-- A line of the statistics.
pub record StatsLine : Type 0 where
  pub record_index : ℕ
  pub num_writes : ℕ
  pub num_reads : ℕ
  pub mpi_rank : ℕ
  pub in_ram : Bool

unfoldable pub stats_lines : ℕ → List (SparseKey × Datagram) → List StatsLine
stats_lines rank [] = []
stats_lines rank ((k, d) ∷ m) =
    record {
      record_index = k.sparse_index;
      num_writes = d.write_count;
      num_reads = d.read_count;
      mpi_rank = rank;
      in_ram = d.in_mem;
    }
    ∷ stats_lines rank m

abbrev pub is_empty {ℓ} : {A : Type ℓ} → List A → Bool
is_empty [] = true
is_empty (x ∷ xs) = false

-- The tasks that append, from the rank i on in the communicator of the Ocore tasks. `appends` says for
-- which of them fopen succeeds.
unfoldable pub append_statistics : (ℕ → Bool) → ℕ → List Node → Result (List StatsLine)
append_statistics appends i [] = ok []
append_statistics appends i (n ∷ nodes) = do
  guard (not (is_empty n.smap)) assert_failed
  guard (appends i) aborted
  more ← append_statistics appends (i + 1) nodes
  ok (stats_lines i n.smap ++ more)

-- `DumpStatistics` on all Ocore tasks in the order of their ranks: the lines, or none where no file is
-- made. `creates` says whether the rank 1 can create the file.
unfoldable pub dump_statistics : Bool → (ℕ → Bool) → List Node → Result (Option (List StatsLine))
dump_statistics creates appends [] = ok none
dump_statistics creates appends (n ∷ []) = ok none
dump_statistics creates appends (n ∷ m ∷ nodes) = do
  guard creates aborted
  lines ← append_statistics appends 1 (m ∷ nodes)
  ok (some lines)

-- `pool[i].clear()` for each record.
unfoldable pub clear_pool : Node → Node
clear_pool n = record n { pool = map (λ b. []) n.pool }

-- The rest of `Finalize` on the Ocore tasks: the statistics, and the cleared pools.
unfoldable pub finalize_tasks :
    Bool → Bool → (ℕ → Bool) → List Node → Result (Option (List StatsLine) × List Node)
unfolding clear_pool dump_statistics
finalize_tasks dump_stats creates appends nodes = do
  lines ← (if dump_stats then dump_statistics creates appends nodes else ok none)
  ok (lines, map clear_pool nodes)
