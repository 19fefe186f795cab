-- ===== src/Ocore/Priority.antt =====
-- The queue that `DumptoDisk` builds: it holds each record in memory once, at its place, the records
-- that were read least in front.
use mathlib.Core.Path.{fun_ext}
use grvy.Base.{
  ap, ℕ, suc, ◌≤◌, ◌≡◌, ◌≢◌, refl, sym, Option, none, some, List, [], ◌∷◌, arith, length, All, leb,
  if◌then◌else◌, Bool-cases, inl, inr,
}
use grvy.Base.Map.{find, Unique}
use grvy.Ocore.Types.{Datagram, SparseKey, NodePriority, key_beq_iff, sparse_key}
use grvy.Ocore.Node.{push, build_queue}
use grvy.Ocore.Views.{Smap, mem_slot, mem_count, slots_of_none}
use grvy.Ocore.Slots.{upd}

-- Each entry names a place in memory, and no key stands twice.
abbrev pub Queued : (SparseKey → Option ℕ) → List NodePriority → Type 0
Queued mem [] = Unit
Queued mem (t ∷ q) = (mem t.key ≡ some t.ocore_index) × All (λ u. u.key ≢ t.key) q × Queued mem q

-- The priorities rise.
abbrev pub Ascending : List NodePriority → Type 0
Ascending [] = Unit
Ascending (t ∷ q) = All (λ u. t.priority ≤ u.priority) q × Ascending q

pub All-push :
    (P : NodePriority → Type 0) (t : NodePriority) (q : List NodePriority)
    → P t
    → All P q
    → All P (push t q)
unfolding push
All-push P t [] h a = (h, tt)
All-push P t (u ∷ q) h a = ground (arith, All-push P t q h a.1)

length-push : (t : NodePriority) (q : List NodePriority) → length (push t q) ≡ suc (length q)
unfolding push
length-push t [] = refl
length-push t (u ∷ q) = ground (arith, length-push t q)

All-le_trans :
    (a b : ℕ) (q : List NodePriority)
    → a ≤ b
    → All (λ u. b ≤ u.priority) q
    → All (λ u. a ≤ u.priority) q
All-le_trans a b [] h l = tt
All-le_trans a b (u ∷ q) h l = (omega arith, All-le_trans a b q h l.1)

push-Ascending : (t : NodePriority) (q : List NodePriority) → Ascending q → Ascending (push t q)
unfolding push
push-Ascending t [] a = (tt, tt)
push-Ascending t (u ∷ q) a = elim (Bool-cases (leb t.priority u.priority)) [
  | inl e ↦ rw e (ground (arith, All-le_trans t.priority u.priority q))
  | inr e ↦
      rw e (All-push (λ v. u.priority ≤ v.priority) t q (ground arith) a.0, push-Ascending t q a.1)
]

All-ne-sym :
    (k : SparseKey) (q : List NodePriority) → All (λ u. u.key ≢ k) q → All (λ u. k ≢ u.key) q
All-ne-sym k [] a = tt
All-ne-sym k (u ∷ q) a = ((λ e. a.0 (sym e)), All-ne-sym k q a.1)

push-Queued :
    (mem : SparseKey → Option ℕ) (t : NodePriority) (q : List NodePriority)
    → mem t.key ≡ some t.ocore_index
    → All (λ u. u.key ≢ t.key) q
    → Queued mem q
    → Queued mem (push t q)
unfolding push
push-Queued mem t [] h a d = (h, tt, tt)
push-Queued mem t (u ∷ q) h a d = elim (Bool-cases (leb t.priority u.priority)) [
  | inl e ↦ rw e (h, a, d)
  | inr e ↦
      rw e (
        d.0,
        All-push (λ v. v.key ≢ u.key) t q (λ p. a.0 (sym p)) d.1,
        push-Queued mem t q h a.1 d.2,
      )
]

-- A key that the map does not hold is not in the queue.
pub Queued-All_ne :
    (mem : SparseKey → Option ℕ) (k : SparseKey) (q : List NodePriority)
    → mem k ≡ none
    → Queued mem q
    → All (λ u. u.key ≢ k) q
Queued-All_ne mem k [] e d = tt
Queued-All_ne mem k (u ∷ q) e d = (λ p. cc (ap mem p, d.0), Queued-All_ne mem k q e d.2)

-- The queue still fits when a key outside it changes its place.
pub Queued-upd :
    (mem : SparseKey → Option ℕ) (k : SparseKey) (v : Option ℕ) (q : List NodePriority)
    → All (λ u. u.key ≢ k) q
    → Queued mem q
    → Queued (upd mem k v) q
Queued-upd mem k v [] a d = tt
Queued-upd mem k v (u ∷ q) a d =
    (ground (arith, key_beq_iff k u.key), d.1, Queued-upd mem k v q a.1 d.2)

mem_slot-cons :
    (k : SparseKey) (d : Datagram) (m : Smap)
    → mem_slot ((k, d) ∷ m) ≡ upd (mem_slot m) k (if d.in_mem then some d.index else none)
unfolding mem_slot find
mem_slot-cons k d m = fun_ext λ j. ground arith

build_queue-Queued_step :
    (k : SparseKey) (d : Datagram) (m : Smap)
    → find k m ≡ none
    → Queued (mem_slot m) (build_queue m)
    → Queued (mem_slot ((k, d) ∷ m)) (build_queue ((k, d) ∷ m))
unfolding build_queue
build_queue-Queued_step k d m fresh rest = rw (mem_slot-cons k d m) (elim (Bool-cases d.in_mem) [
  | inl e ↦ rw e (push-Queued _ _ _ (ground (arith, key_beq_iff k k)) absent (old _))
  | inr e ↦ rw e (old _)
])
  where
    absent : All (λ t. t.key ≢ k) (build_queue m)
    absent = Queued-All_ne (mem_slot m) k (build_queue m) (slots_of_none k m fresh).0 rest

    old : (v : Option ℕ) → Queued (upd (mem_slot m) k v) (build_queue m)
    old v = Queued-upd (mem_slot m) k v (build_queue m) absent rest

pub build_queue-Queued : (m : Smap) → Unique m → Queued (mem_slot m) (build_queue m)
unfolding build_queue
build_queue-Queued [] u = tt
build_queue-Queued ((k, d) ∷ m) u = build_queue-Queued_step k d m u.0 (build_queue-Queued m u.1)

pub build_queue-Ascending : (m : Smap) → Ascending (build_queue m)
unfolding build_queue
build_queue-Ascending [] = tt
build_queue-Ascending ((k, d) ∷ m) = ground (
  arith,
  build_queue-Ascending m,
  push-Ascending (record { priority = d.read_count; key = k; ocore_index = d.index })
      (build_queue m),
)

pub length-build_queue : (m : Smap) → length (build_queue m) ≡ mem_count m
unfolding build_queue mem_count
length-build_queue [] = refl
length-build_queue ((k, d) ∷ m) = ground (
  arith,
  length-build_queue m,
  length-push (record { priority = d.read_count; key = k; ocore_index = d.index }) (build_queue m),
)
