-- ===== src/Ocore/Overflow.antt =====
-- The counter of active records across an overflow, and pools too small for the watermark.
use grvy.Base.{
  ℕ, ◌+◌, ◌*◌, ◌≤◌, ◌<◌, ◌≡◌, ap, ◌∙◌, true, none, length, ok, fail, assert_failed, arith, inl, inr,
}
use grvy.Base.Map.{find}
use grvy.Ocore.Types.{Block, SparseKey, Node, IsSane, Config, sparse_key}
use grvy.Ocore.Node.{store_data, new_record, recv_in_pool, num_to_dump}
use grvy.Ocore.Views.{mem_count, mem_count-insert}
use grvy.Ocore.Invariant.{Inv, Filling, contents}
use grvy.Ocore.Invariant.Free.{HasRoom, take_overflow, full_known}
use grvy.Ocore.Invariant.Stored.{contents-eq-none_iff, stored}
use grvy.Ocore.Store.{store_data-stuck}

-- A new record that causes an overflow is counted twice: the distance from the number of records in
-- memory up to the counter of active records grows by one with each such store.
pub overflow_overcounts :
    (n : Node) (key : SparseKey) (b : Block)
    → Inv n
    → contents n key ≡ none
    → n.max_num_records ≤ n.num_active_records
    → n.use_disk_overflow ≡ true
    → 0 < num_to_dump n.config (mem_count n.smap)
    → (n' : Node) × (store_data n key b ≡ ok n')
      × (n'.num_active_records + mem_count n.smap ≡ n.num_active_records + mem_count n'.smap + 1)
unfolding store_data new_record recv_in_pool
overflow_overcounts n key b v unknown full on some_go =
    let absent = (contents-eq-none_iff n key v.core).0 unknown in
    let (s, m, taken, t, counter, fewer) = take_overflow n v full on (omega arith) in
    let absent' : find key m.smap ≡ none =
      (contents-eq-none_iff m key t.core).0 (t.same_contents key ∙ unknown) in
    let is_up = v.core.is_up in
    let rank_pos = v.core.rank_pos in
    let size = t.core.pool_size in
    let below = t.below in
    let (known, counted) = full_known n v.phase full in
    (stored key s b m, ground (arith, taken), omega (arith, mem_count-insert key m.smap s absent'))

small_dump :
    (c : Config) (k : ℕ)
    → IsSane c
    → k ≡ c.max_num_records
    → c.ratio_num * c.max_num_records < c.ratio_den
    → num_to_dump c k ≡ 0
unfolding num_to_dump
small_dump c k s e h = rw e (grind arith)

-- A full pool that has not overflowed yet, with fewer records than the watermark can take one of,
-- stops at the assertion when a new record comes, although the overflow is enabled.
pub small_pool_stops :
    (n : Node) (key : SparseKey) (b : Block)
    → Inv n
    → Filling n
    → contents n key ≡ none
    → n.num_active_records ≡ n.max_num_records
    → n.use_disk_overflow ≡ true
    → n.ratio_num * n.max_num_records < n.ratio_den
    → store_data n key b ≡ fail assert_failed
small_pool_stops n key b v filling unknown full on small =
    ground (arith, store_data-stuck n key b v unknown no_room)
  where
    nothing_goes : num_to_dump n.config (mem_count n.smap) ≡ 0
    nothing_goes =
        small_dump n.config (mem_count n.smap) v.core.sane (omega (arith, filling.counted)) small

    no_room : ¬ HasRoom n
    no_room (inl h) = omega arith
    no_room (inr h) = omega (arith, nothing_goes, ap length filling.no_free)
