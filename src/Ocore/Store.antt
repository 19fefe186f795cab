-- ===== src/Ocore/Store.antt =====
-- `StoreData` implements assignment to the map `contents`, whatever it has to move to disk.
use grvy.Base.{
  ℕ, ◌+◌, ◌<◌, ◌≡◌, ◌≢◌, ◌⊎◌, inl, inr, refl, ◌∙◌, none, some, List, [], ◌∷◌, arith, length,
  length-set, set, ok, fail, aborted, assert_failed, if◌then◌else◌, Bool-cases, Option-cases,
}
use grvy.Base.Map.{find}
use grvy.Ocore.Types.{Block, SparseKey, Datagram, Node, key_beq, sparse_key}
use grvy.Ocore.Node.{
  disk_offset, write_at, store_data, new_record, recv_in_pool, recv_on_disk, get_free_record,
  pop_free, num_to_dump,
}
use grvy.Ocore.Views.{KeepsPlace, mem_slot, mem_count, slots_of_some}
use grvy.Ocore.Invariant.{Core, Inv, contents}
use grvy.Ocore.Invariant.Free.{HasRoom, get_free_record-Taken}
use grvy.Ocore.Invariant.Stored.{
  contents-eq-none_iff, stored, stored-Core, stored-Phase, stored-contents,
}
use grvy.Ocore.Invariant.Loop.{dump_to_disk-Dumped}
use grvy.Ocore.Touch.{
  touched, touched-Inv, touched-contents_mem, touched-contents_disk, Filled-write_at,
}

-- The task after a successful write of b under the key.
pub record Wrote (n : Node) (key : SparseKey) (b : Block) (n' : Node) : Type 0 where
  pub inv : Inv n'
  pub same_config : n'.config ≡ n.config
  pub same_rank : n'.mpi_rank_global ≡ n.mpi_rank_global
  pub reads : (j : SparseKey) → contents n' j ≡ (if key_beq key j then some b else contents n j)

abbrev count_write : Datagram → Datagram
count_write e = record e { write_count = e.write_count + 1 }

count_write-KeepsPlace : KeepsPlace count_write
count_write-KeepsPlace d = (refl, refl)

store_new :
    (n : Node) (key : SparseKey) (b : Block)
    → Inv n
    → find key n.smap ≡ none
    → HasRoom n
    → (n' : Node) × (store_data n key b ≡ ok n') × Wrote n key b n'
unfolding store_data new_record recv_in_pool
store_new n key b v absent room =
    let (s, m, taken, t) = get_free_record-Taken n v room in
    let absent' : find key m.smap ≡ none =
      (contents-eq-none_iff m key t.core).0
        (t.same_contents key ∙ (contents-eq-none_iff n key v.core).1 absent) in
    let is_up = v.core.is_up in
    let rank_pos = v.core.rank_pos in
    let size = t.core.pool_size in
    let below = t.below in
    (
      stored key s b m,
      ground (arith, taken),
      record {
        inv = record {
          core = stored-Core m key s b t.core absent' t.unused t.below t.not_free;
          phase = stored-Phase m key s b t.core absent' t.unused t.below t.origin;
        };
        same_config = t.same_config;
        same_rank = t.same_rank;
        reads = λ j.
            rw (stored-contents m key s b t.core absent' t.unused t.below j, t.same_contents j)
              refl;
      },
    )

store_old :
    (n : Node) (key : SparseKey) (b : Block) (d : Datagram)
    → Inv n
    → find key n.smap ≡ some d
    → (n' : Node) × (store_data n key b ≡ ok n') × Wrote n key b n'
unfolding store_data recv_in_pool recv_on_disk
store_old n key b d v e =
    let core = v.core in
    elim (Bool-cases d.in_mem) [
      | inl m ↦
          let slot : mem_slot n.smap key ≡ some d.index =
            ground (arith, slots_of_some key n.smap d e) in
          let below = core.mem_below.apply key d.index slot in
          (
            touched key count_write (set n.pool d.index b) n.fp_tmp n,
            ground arith,
            record {
              inv =
                  touched-Inv n key count_write count_write-KeepsPlace _ _
                    (length-set n.pool d.index b) core.filled v;
              same_config = refl;
              same_rank = refl;
              reads = touched-contents_mem n key count_write count_write-KeepsPlace d b core e m;
            },
          )
      | inr m ↦ (
        touched key count_write n.pool (write_at n.fp_tmp (disk_offset n.config d.index) b) n,
        ground arith,
        record {
          inv =
              touched-Inv n key count_write count_write-KeepsPlace _ _ refl
                (Filled-write_at n _ b core) v;
          same_config = refl;
          same_rank = refl;
          reads = touched-contents_disk n key count_write count_write-KeepsPlace d b core e m;
        },
      )
    ]

-- On a task that keeps its invariant, a store succeeds if the record is known or there is room for
-- it. The record can then be read under its key, every other record is as it was, and the invariant
-- holds.
pub store_data-Wrote :
    (n : Node) (key : SparseKey) (b : Block)
    → Inv n
    → (contents n key ≢ none) ⊎ HasRoom n
    → (n' : Node) × (store_data n key b ≡ ok n') × Wrote n key b n'
store_data-Wrote n key b v may = elim (Option-cases (find key n.smap)) [
  | inr (d, e) ↦ store_old n key b d v e
  | inl e ↦ store_new n key b v e (room e may)
]
  where
    room : find key n.smap ≡ none → (contents n key ≢ none) ⊎ HasRoom n → HasRoom n
    room e (inl known) = absurd (known ((contents-eq-none_iff n key v.core).1 e))
    room e (inr h) = h

pop_free-empty :
    (n : Node) (l : List ℕ) → n.free_records ≡ l → length l ≡ 0 → pop_free n ≡ fail assert_failed
unfolding pop_free
pop_free-empty n [] e h = ground arith
pop_free-empty n (s ∷ rest) e h = absurd (omega arith)

get_free_record-stuck :
    (n : Node)
    → Core n
    → ¬ HasRoom n
    → get_free_record n ≡ fail (if n.use_disk_overflow then assert_failed else aborted)
unfolding get_free_record
get_free_record-stuck n core none_left =
    let (m, e, d) = dump_to_disk-Dumped n core in
    let stuck = pop_free-empty m m.free_records refl in
    let full : ¬ (n.num_active_records < n.max_num_records) = λ h. none_left (inl h) in
    elim (Bool-cases n.use_disk_overflow) [
      | inl on ↦
          let nothing : ¬ (0 < num_to_dump n.config (mem_count n.smap) + length n.free_records) =
            λ h. none_left (inr (on, h)) in
          let none_freed : length m.free_records ≡ 0 = omega arith in
          ground (arith, e, stuck none_freed)
      | inr off ↦ ground arith
    ]

-- A store of an unknown record with no room for it stops the task and never overwrites another
-- record: by the assertion if the overflow is enabled, and by MPI_Abort otherwise.
pub store_data-stuck :
    (n : Node) (key : SparseKey) (b : Block)
    → Inv n
    → contents n key ≡ none
    → ¬ HasRoom n
    → store_data n key b ≡ fail (if n.use_disk_overflow then assert_failed else aborted)
unfolding store_data new_record
store_data-stuck n key b v unknown none_left =
    let absent = (contents-eq-none_iff n key v.core).0 unknown in
    let is_up = v.core.is_up in
    let rank_pos = v.core.rank_pos in ground (arith, get_free_record-stuck n v.core none_left)
