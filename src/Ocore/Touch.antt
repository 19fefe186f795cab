-- ===== src/Ocore/Touch.antt =====
-- A record that is there is written or read again: its counters change, its place does not, and
-- what stands at other places stays.
use mathlib.Core.Path.{subst}
use grvy.Base.{
  ℕ, ◌<◌, ◌≡◌, ◌≢◌, inl, inr, ap, sym, ◌∙◌, true, false, Option, none, some, List, arith, length,
  get_elem?-set_self, get_elem?-set_ne, set, All, if◌then◌else◌, Bool-cases, Option-cases, ◌==◌,
}
use grvy.Base.Map.{find, modify}
use grvy.Base.Map.Laws.{modify-Unique}
use grvy.Ocore.Types.{Block, SparseKey, Datagram, Node, key_beq, key_beq_iff, sparse_key}
use grvy.Ocore.Node.{disk_offset, write_at}
use grvy.Ocore.Views.{
  mem_slot, disk_slot, KeepsPlace, mem_slot-modify, disk_slot-modify, mem_count-modify,
  slots_of_some,
}
use grvy.Ocore.Slots.{Unused}
use grvy.Ocore.Invariant.{Core, Phase, Inv, contents, disk_offset-injective}

-- The places of the overflow file below a bound are written.
abbrev pub Filled : Node → (ℕ → Option Block) → Type 0
Filled n g =
    (i : ℕ) → i < n.num_active_disk_records → (b : Block) × (g (disk_offset n.config i) ≡ some b)

abbrev pub touched :
    SparseKey → (Datagram → Datagram) → List Block → (ℕ → Option Block) → Node → Node
touched k f p g n = record n { smap = modify k f n.smap; pool = p; fp_tmp = g }

module _ (n : Node) (k : SparseKey) (f : Datagram → Datagram) (same : KeepsPlace f) where
  touched-Core :
      (p : List Block) (g : ℕ → Option Block)
      → length p ≡ length n.pool
      → Filled n g
      → Core n
      → Core (touched k f p g n)
  touched-Core p g size filled core = record {
    sane = core.sane;
    is_up = core.is_up;
    rank_pos = core.rank_pos;
    pool_size = size ∙ core.pool_size;
    unique = modify-Unique k f n.smap core.unique;
    mem_inj = rw (mem_slot-modify k f same n.smap) core.mem_inj;
    mem_below = rw (mem_slot-modify k f same n.smap) core.mem_below;
    disk_inj = rw (disk_slot-modify k f same n.smap) core.disk_inj;
    disk_below = rw (disk_slot-modify k f same n.smap) core.disk_below;
    free_below = core.free_below;
    free_unused =
        subst (λ h. All (Unused h) n.free_records) (sym (mem_slot-modify k f same n.smap))
          core.free_unused;
    free_distinct = core.free_distinct;
    filled = filled;
  }

  touched-Phase : (p : List Block) (g : ℕ → Option Block) → Phase n → Phase (touched k f p g n)
  touched-Phase p g (inl h) = inl (record {
    no_free = h.no_free;
    in_order = rw (mem_slot-modify k f same n.smap) h.in_order;
    counted = omega (arith, mem_count-modify k f same n.smap);
    fits = h.fits;
  })
  touched-Phase p g (inr h) = inr (record {
    all_known = omega (arith, mem_count-modify k f same n.smap);
    counted = omega (arith, mem_count-modify k f same n.smap);
  })

  pub touched-Inv :
      (p : List Block) (g : ℕ → Option Block)
      → length p ≡ length n.pool
      → Filled n g
      → Inv n
      → Inv (touched k f p g n)
  touched-Inv p g size filled v = record {
    core = touched-Core p g size filled v.core;
    phase = touched-Phase p g v.phase;
  }

  -- Only the counters change.
  pub touched-contents : (j : SparseKey) → contents (touched k f n.pool n.fp_tmp n) j ≡ contents n j
  unfolding contents
  touched-contents j =
      rw (mem_slot-modify k f same n.smap, disk_slot-modify k f same n.smap) (ground arith)

  -- A write of the record in memory.
  pub touched-contents_mem :
      (d : Datagram) (b : Block)
      → Core n
      → find k n.smap ≡ some d
      → d.in_mem ≡ true
      → (j : SparseKey)
      → contents (touched k f (set n.pool d.index b) n.fp_tmp n) j
        ≡ (if key_beq k j then some b else contents n j)
  unfolding contents
  touched-contents_mem d b core e m j =
      let slot : mem_slot n.smap k ≡ some d.index = ground (arith, slots_of_some k n.smap d e) in
      let below = core.mem_below.apply k d.index slot in
      rw (mem_slot-modify k f same n.smap, disk_slot-modify k f same n.smap)
        (elim (Bool-cases (key_beq k j)) [
          | inl h ↦
              let eq = (key_beq_iff k j).0 h in
              ground (
                arith,
                ap (mem_slot n.smap) eq,
                get_elem?-set_self n.pool d.index b (omega (arith, core.pool_size)),
              )
          | inr h ↦ elim (Option-cases (mem_slot n.smap j)) [
            | inl e' ↦ ground arith
            | inr (t, e') ↦
                let apart : d.index ≢ t = λ p.
                  let eq = core.mem_inj.apply k j t (cc (slot, p)) e' in
                  cc (h, (key_beq_iff k j).1 eq) in
                ground (arith, get_elem?-set_ne n.pool d.index t b apart)
          ]
        ])

  -- A write of the record on disk.
  pub touched-contents_disk :
      (d : Datagram) (b : Block)
      → Core n
      → find k n.smap ≡ some d
      → d.in_mem ≡ false
      → (j : SparseKey)
      → contents (touched k f n.pool (write_at n.fp_tmp (disk_offset n.config d.index) b) n) j
        ≡ (if key_beq k j then some b else contents n j)
  unfolding contents
  touched-contents_disk d b core e m j =
      let no_slot : mem_slot n.smap k ≡ none = ground (arith, slots_of_some k n.smap d e) in
      let place : disk_slot n.smap k ≡ some d.index = ground (arith, slots_of_some k n.smap d e) in
      rw (mem_slot-modify k f same n.smap, disk_slot-modify k f same n.smap)
        (elim (Bool-cases (key_beq k j)) [
          | inl h ↦
              let eq = (key_beq_iff k j).0 h in
              ground (arith, ap (mem_slot n.smap) eq, ap (disk_slot n.smap) eq)
          | inr h ↦ elim (Option-cases (disk_slot n.smap j)) [
            | inl e' ↦ ground arith
            | inr (i, e') ↦
                let apart : d.index ≢ i = λ p.
                  let eq = core.disk_inj.apply k j i (cc (place, p)) e' in
                  cc (h, (key_beq_iff k j).1 eq) in
                let elsewhere = disk_offset-injective n.config d.index i core.sane in ground arith
          ]
        ])

-- A write keeps the file filled.
pub Filled-write_at : (n : Node) (o : ℕ) (b : Block) → Core n → Filled n (write_at n.fp_tmp o b)
Filled-write_at n o b core i h = elim (Bool-cases (o == disk_offset n.config i)) [
  | inl e ↦ (b, rw e)
  | inr e ↦ rw e (core.filled i h)
]
