-- ===== src/Ocore/Invariant/Dump.antt =====
-- One round of the loop of `DumptoDisk` keeps the places apart and every record as it was.
use mathlib.Core.Path.{subst}
use grvy.Base.{
  ap, sym, ℕ, ◌+◌, ◌<◌, ◌≡◌, ◌≢◌, inl, inr, false, Option, none, some, List, [], ◌∷◌, arith,
  get_elem?, All, Bool-cases, ◌==◌, Option-cases,
}
use grvy.Base.Map.Laws.{modify-Unique}
use grvy.Ocore.Types.{Block, SparseKey, NodePriority, Node, sparse_key, key_beq, key_beq_iff}
use grvy.Ocore.Node.{disk_offset, dump_record}
use grvy.Ocore.Views.{
  mem_slot, disk_slot, mem_count, mem_slot-to_disk, disk_slot-to_disk, mem_count-to_disk,
  find_of_mem_slot, to_disk,
}
use grvy.Ocore.Slots.{
  upd, Below-mono, Below-Unused, Unused, Inj-upd-none, Inj-upd-some, Below-upd-none, Below-upd-some,
  Unused-upd_self, All-Unused-upd-none,
}
use grvy.Ocore.Invariant.{Core, contents, disk_offset-injective}

-- A place that somebody holds is not in the list of unused places.
not-free :
    (f : SparseKey → Option ℕ) (k : SparseKey) (s : ℕ) (l : List ℕ)
    → f k ≡ some s
    → All (Unused f) l
    → All (λ t. t ≢ s) l
not-free f k s [] e a = tt
not-free f k s (t ∷ l) e a = ((λ p. a.0.apply k (cc (e, p))), not-free f k s l e a.1)

module _ (t : NodePriority) (b : Block) (n : Node) where
  abbrev Held : Type 0
  Held = mem_slot n.smap t.key ≡ some t.ocore_index

  pub dump_record-mem : mem_slot (dump_record t b n).smap ≡ upd (mem_slot n.smap) t.key none
  unfolding dump_record
  dump_record-mem = mem_slot-to_disk t.key n.smap n.num_active_disk_records

  pub dump_record-disk :
      Held
      → disk_slot (dump_record t b n).smap
        ≡ upd (disk_slot n.smap) t.key (some n.num_active_disk_records)
  unfolding dump_record
  dump_record-disk held =
      let (d, e, _, _) = find_of_mem_slot t.key n.smap t.ocore_index held in
      disk_slot-to_disk t.key n.smap n.num_active_disk_records d e

  pub dump_record-count : Held → mem_count (dump_record t b n).smap + 1 ≡ mem_count n.smap
  unfolding dump_record
  dump_record-count held =
      mem_count-to_disk t.key n.smap n.num_active_disk_records t.ocore_index held

  dump_record-filled :
      Core n
      → (i : ℕ) → i < n.num_active_disk_records + 1
      → (c : Block) × ((dump_record t b n).fp_tmp (disk_offset n.config i) ≡ some c)
  unfolding dump_record
  dump_record-filled core i h =
      elim (Bool-cases (disk_offset n.config n.num_active_disk_records == disk_offset n.config i)) [
        | inl e ↦ (b, rw e)
        | inr e ↦ rw e (core.filled i (ground arith))
      ]

  pub dump_record-Core : Core n → Held → Core (dump_record t b n)
  unfolding dump_record
  dump_record-Core core held = record {
    sane = core.sane;
    is_up = core.is_up;
    rank_pos = core.rank_pos;
    pool_size = core.pool_size;
    unique = modify-Unique t.key (to_disk _) n.smap core.unique;
    mem_inj = rw dump_record-mem (Inj-upd-none t.key core.mem_inj);
    mem_below = rw dump_record-mem (Below-upd-none t.key _ core.mem_below);
    disk_inj =
        rw (dump_record-disk held)
          (Inj-upd-some t.key _ core.disk_inj (Below-Unused _ core.disk_below));
    disk_below =
        rw (dump_record-disk held)
          (Below-upd-some t.key _ _ (Below-mono _ _ (omega arith) core.disk_below) (omega arith));
    free_below = (core.mem_below.apply _ _ held, core.free_below);
    free_unused =
        subst (λ f. All (Unused f) (t.ocore_index ∷ n.free_records)) (sym dump_record-mem)
          (
            Unused-upd_self t.key _ core.mem_inj held,
            All-Unused-upd-none _ t.key _ core.free_unused,
          );
    free_distinct = (not-free _ t.key _ _ held core.free_unused, core.free_distinct);
    filled = dump_record-filled core;
  }

  -- The place on disk that a record gets is nobody else's.
  fresh_offset :
      Core n
      → (k : SparseKey) (i : ℕ) → disk_slot n.smap k ≡ some i
      → (disk_offset n.config n.num_active_disk_records == disk_offset n.config i) ≡ false
  fresh_offset core k i e = ground (
    arith,
    core.disk_below.apply k i e,
    disk_offset-injective n.config n.num_active_disk_records i core.sane,
  )

  pub dump_record-contents :
      Core n
      → Held
      → get_elem? n.pool t.ocore_index ≡ some b
      → (k : SparseKey) → contents (dump_record t b n) k ≡ contents n k
  unfolding contents dump_record
  dump_record-contents core held value k =
      rw (dump_record-mem, dump_record-disk held)
        (elim (Bool-cases (key_beq t.key k)) [
          | inl e ↦
              let same = (key_beq_iff t.key k).0 e in ground (arith, ap (mem_slot n.smap) same)
          | inr e ↦ elim (Option-cases (disk_slot n.smap k)) [
            | inl d ↦ ground arith
            | inr (i, d) ↦ ground (arith, fresh_offset core k i d)
          ]
        ])
