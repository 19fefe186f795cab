-- ===== src/Ocore/LeastRead.antt =====
-- `DumptoDisk` moves the records that were read least.
use mathlib.Core.Path.{subst}
use grvy.Base.{
  ok-injective, ℕ, zero, suc, ◌≤◌, ◌≡◌, ◌≢◌, ◌⊎◌, inl, inr, ap, Bool, true, false, Option, none,
  some, List, [], ◌∷◌, ok, get_elem?, All, leb, if◌then◌else◌, Bool-cases, Option-cases, arith,
}
use grvy.Base.Map.{find, Unique}
use grvy.Ocore.Types.{
  Block, SparseKey, NodePriority, Node, Datagram, key_beq, key_beq_iff, sparse_key,
}
use grvy.Ocore.Node.{push, build_queue, dump_record, dump_loop, dump_to_disk}
use grvy.Ocore.Slots.{upd}
use grvy.Ocore.Views.{Smap, mem_slot, slots_of_none}
use grvy.Ocore.Priority.{
  Ascending, All-push, build_queue-Ascending, build_queue-Queued, Queued-All_ne,
}
use grvy.Ocore.Invariant.{Core}
use grvy.Ocore.Invariant.Dump.{dump_record-mem}

-- How often a record was read.
unfoldable pub reads : Smap → SparseKey → ℕ
reads m k = elim (find k m) [ none ↦ 0 | some d ↦ d.read_count ]

abbrev InQueue : SparseKey → List NodePriority → Type 0
InQueue k [] = ⊥
InQueue k (t ∷ q) = (t.key ≡ k) ⊎ InQueue k q

-- The queue has every record in memory, with its priority.
record Covers (r : SparseKey → ℕ) (mem : SparseKey → Option ℕ) (q : List NodePriority)
    : Type 0 where
  all_there : (k : SparseKey) (s : ℕ) → mem k ≡ some s → InQueue k q
  rated : All (λ t. r t.key ≡ t.priority) q

InQueue-push :
    (k : SparseKey) (t : NodePriority) (q : List NodePriority)
    → InQueue k (t ∷ q)
    → InQueue k (push t q)
unfolding push
InQueue-push k t [] h = h
InQueue-push k t (u ∷ q) h =
    push_case (λ p. InQueue-push k t q (inl p)) (λ p. InQueue-push k t q (inr p)) h
  where
    push_case :
        (t.key ≡ k → InQueue k (push t q))
        → (InQueue k q → InQueue k (push t q))
        → InQueue k (t ∷ u ∷ q)
        → InQueue k (push t (u ∷ q))
    push_case front back p = elim (Bool-cases (leb t.priority u.priority)) [
      | inl e ↦ rw e p
      | inr e ↦ rw e (elim p [
        | inl x ↦ inr (front x)
        | inr y ↦ elim y [ inl x ↦ inl x | inr x ↦ inr (back x) ]
      ])
    ]

InQueue-ge :
    (r : SparseKey → ℕ) (k : SparseKey) (p : ℕ) (q : List NodePriority)
    → All (λ u. p ≤ u.priority) q
    → All (λ t. r t.key ≡ t.priority) q
    → InQueue k q
    → p ≤ r k
InQueue-ge r k p [] a b h = absurd h
InQueue-ge r k p (t ∷ q) a b (inl h) = omega (arith, ap r h)
InQueue-ge r k p (t ∷ q) a b (inr h) = InQueue-ge r k p q a.1 b.1 h

dump_loop-step :
    (i : ℕ) (t : NodePriority) (q : List NodePriority) (n m : Node)
    → dump_loop (suc i) (t ∷ q) n ≡ ok m
    → (b : Block) × (dump_loop i q (dump_record t b n) ≡ ok m)
unfolding dump_loop
dump_loop-step i t q n m e = elim (Option-cases (get_elem? n.pool t.ocore_index)) [
  | inl x ↦ absurd (ground (arith, x))
  | inr (b, x) ↦ (b, ground (arith, x))
]

-- A dump takes records out of memory only.
dump_loop-keeps :
    (i : ℕ) (q : List NodePriority) (n m : Node) (k : SparseKey) (s : ℕ)
    → dump_loop i q n ≡ ok m
    → mem_slot m.smap k ≡ some s
    → mem_slot n.smap k ≡ some s
unfolding dump_loop
dump_loop-keeps zero q n m k s e h =
    ground (arith, ap (λ (x : Node). mem_slot x.smap k) (ok-injective e))
dump_loop-keeps (suc i) [] n m k s e h = cc
dump_loop-keeps (suc i) (t ∷ q) n m k s e h =
    let (b, e') = dump_loop-step i t q n m e in
    let later = dump_loop-keeps i q (dump_record t b n) m k s e' h in
    let at_once = subst (λ f. f k ≡ some s) (dump_record-mem t b n) later in ground arith

Covers-upd :
    (r : SparseKey → ℕ) (mem : SparseKey → Option ℕ) (t : NodePriority) (q : List NodePriority)
    → Covers r mem (t ∷ q)
    → Covers r (upd mem t.key none) q
Covers-upd r mem t q c = record {
  all_there =
      λ k s h. behind k (ground (arith, key_beq_iff t.key k)) (c.all_there k s (ground arith));
  rated = c.rated.1;
}
  where
    behind : (k : SparseKey) → t.key ≢ k → InQueue k (t ∷ q) → InQueue k q
    behind k ne (inl p) = absurd (ne p)
    behind k ne (inr p) = p

dump_loop-least :
    (r : SparseKey → ℕ) (i : ℕ) (q : List NodePriority) (n m : Node) (j k : SparseKey) (a c : ℕ)
    → Ascending q
    → Covers r (mem_slot n.smap) q
    → dump_loop i q n ≡ ok m
    → mem_slot n.smap j ≡ some a
    → mem_slot m.smap j ≡ none
    → mem_slot m.smap k ≡ some c
    → r j ≤ r k
unfolding dump_loop
dump_loop-least r zero q n m j k a c asc cov e was gone stays =
    absurd (ground (arith, ap (λ (x : Node). mem_slot x.smap j) (ok-injective e)))
dump_loop-least r (suc i) [] n m j k a c asc cov e was gone stays = cc
dump_loop-least r (suc i) (t ∷ q) n m j k a c asc cov e was gone stays =
    let (b, e') = dump_loop-step i t q n m e in
    let cov' : Covers r (mem_slot (dump_record t b n).smap) q =
      rw (dump_record-mem t b n) (Covers-upd r (mem_slot n.smap) t q cov) in
    let there = cov'.all_there k c (dump_loop-keeps i q (dump_record t b n) m k c e' stays) in
    elim (Bool-cases (key_beq t.key j)) [
      | inl h ↦ omega (
        arith,
        ap r ((key_beq_iff t.key j).0 h),
        cov.rated.0,
        InQueue-ge r k t.priority q asc.0 cov.rated.1 there,
      )
      | inr h ↦
          dump_loop-least r i q (dump_record t b n) m j k a c asc.1 cov' e'
            (rw (dump_record-mem t b n) (ground arith)) gone stays
    ]

rated-cons :
    (k : SparseKey) (d : Datagram) (m : Smap) (q : List NodePriority)
    → All (λ t. t.key ≢ k) q
    → All (λ t. reads m t.key ≡ t.priority) q
    → All (λ t. reads ((k, d) ∷ m) t.key ≡ t.priority) q
unfolding reads find
rated-cons k d m [] a b = tt
rated-cons k d m (t ∷ q) a b = (ground (arith, key_beq_iff k t.key), rated-cons k d m q a.1 b.1)

there-cons :
    (k : SparseKey) (d : Datagram) (m : Smap)
    → ((j : SparseKey) (s : ℕ) → mem_slot m j ≡ some s → InQueue j (build_queue m))
    → (j : SparseKey) (s : ℕ) → mem_slot ((k, d) ∷ m) j ≡ some s
    → InQueue j (build_queue ((k, d) ∷ m))
unfolding build_queue mem_slot find
there-cons k d m rest j s h = elim (Bool-cases d.in_mem) [
  | inr e ↦ rw e (rest j s (ground arith))
  | inl e ↦ rw e (
      InQueue-push j _ (build_queue m) (elim (Bool-cases (key_beq k j)) [
        | inl same ↦ inl ((key_beq_iff k j).0 same)
        | inr other ↦ inr (rest j s (ground arith))
      ]))
]

reads-head : (k : SparseKey) (d : Datagram) (m : Smap) → reads ((k, d) ∷ m) k ≡ d.read_count
unfolding reads find
reads-head k d m = ground (arith, key_beq_iff k k)

All-push_if :
    (P : NodePriority → Type 0) (b : Bool) (t : NodePriority) (q : List NodePriority)
    → P t
    → All P q
    → All P (if b then push t q else q)
All-push_if P true t q h a = All-push P t q h a
All-push_if P false t q h a = a

build_queue-Covers : (m : Smap) → Unique m → Covers (reads m) (mem_slot m) (build_queue m)
unfolding build_queue mem_slot find
build_queue-Covers [] u = record { all_there = λ k s h. cc; rated = tt }
build_queue-Covers ((k, d) ∷ m) u =
    let c = build_queue-Covers m u.1 in
    let absent =
      Queued-All_ne (mem_slot m) k (build_queue m) (slots_of_none k m u.0).0
        (build_queue-Queued m u.1) in
    record {
      all_there = there-cons k d m c.all_there;
      rated =
          All-push_if (λ t. reads ((k, d) ∷ m) t.key ≡ t.priority) d.in_mem _ (build_queue m)
            (reads-head k d m) (rated-cons k d m (build_queue m) absent c.rated);
    }

-- When `DumptoDisk` has moved one record out of memory and kept another one there, the first was
-- read no more often than the second.
pub dump_to_disk-least :
    (n m : Node) (j k : SparseKey) (a c : ℕ)
    → Core n
    → dump_to_disk n ≡ ok m
    → mem_slot n.smap j ≡ some a
    → mem_slot m.smap j ≡ none
    → mem_slot m.smap k ≡ some c
    → reads n.smap j ≤ reads n.smap k
unfolding dump_to_disk
dump_to_disk-least n m j k a c core e was gone stays =
    dump_loop-least (reads n.smap) _ (build_queue n.smap) _ m j k a c (build_queue-Ascending n.smap)
      (build_queue-Covers n.smap core.unique) e was gone stays
