-- ===== src/Ocore/Invariant/Stored.antt =====
-- A new record at the place that `GetFreeRecord` gave: the invariant holds again, and the task holds
-- the new record beside the old ones.
use mathlib.Core.Path.{subst}
use grvy.Base.{
  sym, ℕ, ◌+◌, ◌<◌, ◌≡◌, ◌≢◌, inl, inr, none, some, arith, get_elem?-some, get_elem?-set_self,
  get_elem?-set_ne, length-set, set, All, if◌then◌else◌, Bool-cases, Option-cases, ◌↔◌,
}
use grvy.Base.Map.{find, insert}
use grvy.Base.Map.Laws.{insert-Unique}
use grvy.Ocore.Types.{Block, SparseKey, Datagram, Node, key_beq, sparse_key}
use grvy.Ocore.Views.{
  mem_slot, disk_slot, new_datagram, mem_slot-insert, disk_slot-insert, mem_count-insert,
  slots_of_some, slots_of_none,
}
use grvy.Ocore.Slots.{
  Below-mono, Unused, Inj-upd-none, Inj-upd-some, Below-upd-none, Below-upd-some,
  All-Unused-upd-some,
}
use grvy.Ocore.Invariant.{Core, Phase, contents}
use grvy.Ocore.Invariant.Free.{Origin, fresh, reused}

-- A key has contents exactly when the map holds it.
pub contents_of_find :
    (n : Node) (k : SparseKey) (d : Datagram)
    → Core n
    → find k n.smap ≡ some d
    → (b : Block) × (contents n k ≡ some b)
unfolding contents
contents_of_find n k d core e = elim (Bool-cases d.in_mem) [
  | inl m ↦
      let slot : mem_slot n.smap k ≡ some d.index = ground (arith, slots_of_some k n.smap d e) in
      let (b, h) =
        get_elem?-some n.pool d.index
          (omega (arith, core.mem_below.apply _ _ slot, core.pool_size)) in
      (b, ground arith)
  | inr m ↦
      let slot : mem_slot n.smap k ≡ none = ground (arith, slots_of_some k n.smap d e) in
      let place : disk_slot n.smap k ≡ some d.index = ground (arith, slots_of_some k n.smap d e) in
      let (b, h) = core.filled d.index (core.disk_below.apply _ _ place) in (b, ground arith)
]

pub contents-eq-none_iff :
    (n : Node) (k : SparseKey) → Core n → (contents n k ≡ none) ↔ (find k n.smap ≡ none)
unfolding contents
contents-eq-none_iff n k core = (missing, λ e. ground (arith, slots_of_none k n.smap e))
  where
    missing : contents n k ≡ none → find k n.smap ≡ none
    missing h = elim (Option-cases (find k n.smap)) [
      | inl e ↦ e
      | inr (d, e) ↦ let (b, c) = contents_of_find n k d core e in cc (h, c)
    ]

abbrev pub stored : SparseKey → ℕ → Block → Node → Node
stored key s b n = record n {
  smap = insert key (new_datagram s) n.smap;
  num_active_records = n.num_active_records + 1;
  pool = set n.pool s b;
}

module _ (n : Node) (key : SparseKey) (s : ℕ) (b : Block) (core : Core n) where
  module _ (absent : find key n.smap ≡ none) (unused : Unused (mem_slot n.smap) s) where
    pub stored-Core :
        s < n.max_num_records → All (λ t. t ≢ s) n.free_records → Core (stored key s b n)
    stored-Core below not_free = record {
      sane = core.sane;
      is_up = core.is_up;
      rank_pos = core.rank_pos;
      pool_size = rw length-set core.pool_size;
      unique = insert-Unique key (new_datagram s) n.smap absent core.unique;
      mem_inj = rw mem_slot-insert (Inj-upd-some key s core.mem_inj unused);
      mem_below = rw mem_slot-insert (Below-upd-some key _ s core.mem_below below);
      disk_inj = rw disk_slot-insert (Inj-upd-none key core.disk_inj);
      disk_below = rw disk_slot-insert (Below-upd-none key _ core.disk_below);
      free_below = core.free_below;
      free_unused =
          subst (λ f. All (Unused f) n.free_records) (sym (mem_slot-insert key n.smap s))
            (All-Unused-upd-some _ key s n.free_records not_free core.free_unused);
      free_distinct = core.free_distinct;
      filled = core.filled;
    }

    pub stored-Phase : s < n.max_num_records → Origin s n → Phase (stored key s b n)
    stored-Phase below (fresh no_free at_end counted in_order) = inl (record {
      no_free = no_free;
      in_order =
          rw mem_slot-insert
            (Below-upd-some key _ s (Below-mono _ _ (omega arith) in_order) (omega arith));
      counted = omega (arith, mem_count-insert key n.smap s absent);
      fits = omega arith;
    })
    stored-Phase below (reused known counted) = inr (record {
      all_known = omega (arith, mem_count-insert key n.smap s absent);
      counted = omega (arith, mem_count-insert key n.smap s absent);
    })

    pub stored-contents :
        s < n.max_num_records
        → (j : SparseKey)
        → contents (stored key s b n) j ≡ (if key_beq key j then some b else contents n j)
    unfolding contents
    stored-contents below j =
        rw (mem_slot-insert, disk_slot-insert)
          (elim (Bool-cases (key_beq key j)) [
            | inl e ↦ ground (arith, get_elem?-set_self n.pool s b (omega (arith, core.pool_size)))
            | inr e ↦ elim (Option-cases (mem_slot n.smap j)) [
              | inl m ↦ ground arith
              | inr (t, m) ↦
                  let apart : s ≢ t = λ p. unused.apply j (cc (m, p)) in
                  ground (arith, get_elem?-set_ne n.pool s t b apart)
            ]
          ])
