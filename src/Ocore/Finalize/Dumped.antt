-- ===== src/Ocore/Finalize/Dumped.antt =====
-- What the statistics of src/grvy_ramdisk.cpp contain, and which records they leave out.
use grvy.Base.{
  ℕ, ◌+◌, Bool, true, not, none, some, List, [], ◌∷◌, ◌++◌, map, ◌&&◌, ◌≡◌, refl, if◌then◌else◌, ok,
  fail, assert_failed, arith,
}
use grvy.Ocore.Types.{SparseKey, Datagram, Node}
use grvy.Ocore.Finalize.{
  StatsLine, stats_lines, is_empty, append_statistics, dump_statistics, clear_pool, finalize_tasks,
}

-- Each of the tasks has a record.
abbrev pub all_used : List Node → Bool
all_used [] = true
all_used (n ∷ nodes) = not (is_empty n.smap) && all_used nodes

-- A line tells of a record on the task of a rank.
pub record Tells (rank : ℕ) (key : SparseKey) (held : Datagram) (line : StatsLine) : Type 0 where
  pub index_is : line.record_index ≡ key.sparse_index
  pub writes_are : line.num_writes ≡ held.write_count
  pub reads_are : line.num_reads ≡ held.read_count
  pub rank_is : line.mpi_rank ≡ rank
  pub place_is : line.in_ram ≡ held.in_mem

-- The lines tell of the records of a task, one after another.
abbrev pub TellsAll : ℕ → List (SparseKey × Datagram) → List StatsLine → Type 0
TellsAll rank [] [] = Unit
TellsAll rank [] (l ∷ lines) = ⊥
TellsAll rank (e ∷ m) [] = ⊥
TellsAll rank ((key, held) ∷ m) (l ∷ lines) = Tells rank key held l × TellsAll rank m lines

-- The lines tell of the records of the tasks from a rank on, task by task.
abbrev pub TellsTasks : ℕ → List Node → List StatsLine → Type 0
TellsTasks rank [] lines = lines ≡ []
TellsTasks rank (n ∷ nodes) lines =
    (own : List StatsLine) × (more : List StatsLine) × (lines ≡ own ++ more)
    × TellsAll rank n.smap own
    × TellsTasks (rank + 1) nodes more

stats_lines-TellsAll :
    (rank : ℕ) (m : List (SparseKey × Datagram)) → TellsAll rank m (stats_lines rank m)
unfolding stats_lines
stats_lines-TellsAll rank [] = tt
stats_lines-TellsAll rank ((k, d) ∷ m) = (
  record { index_is = refl; writes_are = refl; reads_are = refl; rank_is = refl; place_is = refl },
  stats_lines-TellsAll rank m,
)

append_statistics-TellsTasks :
    (i : ℕ) (nodes : List Node)
    → (lines : List StatsLine) × (append_statistics (λ _. true) i nodes
        ≡ (if all_used nodes then ok lines else fail assert_failed))
      × TellsTasks i nodes lines
unfolding append_statistics
append_statistics-TellsTasks i [] = ([], refl, refl)
append_statistics-TellsTasks i (n ∷ nodes) =
    let (lines, run, told) = append_statistics-TellsTasks (i + 1) nodes in
    let own = stats_lines i n.smap in
    (own ++ lines, ground (arith, run), (own, lines, refl, stats_lines-TellsAll i n.smap, told))

-- With two Ocore tasks or more whose files open, the statistics have a line for each record of every
-- task but the first, task by task and in the order of the keys, with the index, the counts, the rank
-- and the place of the record, provided that all tasks but the first have a record; otherwise an
-- assertion fails. The records of the first task are left out, and with one Ocore task no file is
-- made. Each pool is cleared.
pub finalize_tasks-dumped :
    (first second : Node) (nodes : List Node)
    → (lines : List StatsLine) × (finalize_tasks true true (λ _. true) (first ∷ second ∷ nodes) ≡ (
        if all_used (second ∷ nodes)
        then ok (some lines, map clear_pool (first ∷ second ∷ nodes))
        else fail assert_failed))
      × TellsTasks 1 (second ∷ nodes) lines
      × (finalize_tasks true true (λ _. true) (first ∷ []) ≡ ok (none, map clear_pool (first ∷ [])))
unfolding finalize_tasks dump_statistics
finalize_tasks-dumped first second nodes =
    let (lines, run, told) = append_statistics-TellsTasks 1 (second ∷ nodes) in
    (lines, ground (arith, run), told, refl)
