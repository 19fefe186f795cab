-- ===== src/Ocore/Invariant/Free.antt =====
-- `GetFreeRecord` returns a place that no record holds, and changes no record. It fails only if the
-- pool is full and either the overflow is disabled or the watermark is too low to free a place.
use mathlib.Core.Path.{subst}
use grvy.Base.{
  ℕ, ◌+◌, ◌*◌, ◌-◌, ◌≤◌, ◌<◌, ◌≡◌, ◌≢◌, ◌⊎◌, inl, inr, refl, ap, ◌∙◌, true, List, [], ◌∷◌, arith,
  length, ok, All, ltb, Bool-cases,
}
use grvy.Ocore.Types.{SparseKey, Config, IsSane, Node}
use grvy.Ocore.Node.{num_to_dump, pop_free, get_free_record}
use grvy.Ocore.Views.{mem_slot, mem_count}
use grvy.Ocore.Slots.{Below, Below-Unused, Unused}
use grvy.Ocore.Invariant.{Core, Phase, Inv, Distinct, contents}
use grvy.Ocore.Invariant.Loop.{Dumped, dump_to_disk-Dumped}

-- Where the place s came from: the end of the used part of the pool, or the free list.
pub data Origin (s : ℕ) (n : Node) : Type 0 where
  fresh :
      n.free_records ≡ []
      → s ≡ n.num_active_records
      → n.num_active_records ≡ mem_count n.smap
      → Below (mem_slot n.smap) n.num_active_records
      → Origin s n
  reused :
      mem_count n.smap + 1 + length n.free_records ≡ n.max_num_records
      → mem_count n.smap ≤ n.num_active_records
      → Origin s n

-- What giving out the place s does to a task.
pub record Taken (s : ℕ) (n n' : Node) : Type 0 where
  pub core : Core n'
  pub same_config : n'.config ≡ n.config
  pub same_rank : n'.mpi_rank_global ≡ n.mpi_rank_global
  pub same_contents : (k : SparseKey) → contents n' k ≡ contents n k
  pub unused : Unused (mem_slot n'.smap) s
  pub below : s < n'.max_num_records
  pub not_free : All (λ t. t ≢ s) n'.free_records
  pub origin : Origin s n'

-- There is a place, or one can be made.
abbrev pub HasRoom : Node → Type 0
HasRoom n =
    (n.num_active_records < n.max_num_records)
    ⊎ ((n.use_disk_overflow ≡ true)
        × (0 < num_to_dump n.config (mem_count n.smap) + length n.free_records))

Core-pop :
    (n : Node) (s : ℕ) (rest : List ℕ) (c : ℕ)
    → n.free_records ≡ s ∷ rest
    → Core n
    → Core (record n { free_records = rest; num_active_records = c })
Core-pop n s rest c e core = record {
  sane = core.sane;
  is_up = core.is_up;
  rank_pos = core.rank_pos;
  pool_size = core.pool_size;
  unique = core.unique;
  mem_inj = core.mem_inj;
  mem_below = core.mem_below;
  disk_inj = core.disk_inj;
  disk_below = core.disk_below;
  free_below = (subst (All (λ t. t < n.max_num_records)) e core.free_below).1;
  free_unused = (subst (All (Unused (mem_slot n.smap))) e core.free_unused).1;
  free_distinct = (subst Distinct e core.free_distinct).1;
  filled = core.filled;
}

Taken-pop :
    (n : Node) (s : ℕ) (rest : List ℕ) (c : ℕ)
    → n.free_records ≡ s ∷ rest
    → Core n
    → mem_count n.smap + length n.free_records ≡ n.max_num_records
    → mem_count n.smap ≤ c
    → Taken s n (record n { free_records = rest; num_active_records = c })
unfolding contents
Taken-pop n s rest c e core known le = record {
  core = Core-pop n s rest c e core;
  same_config = refl;
  same_rank = refl;
  same_contents = λ k. refl;
  unused = (subst (All (Unused (mem_slot n.smap))) e core.free_unused).0;
  below = (subst (All (λ t. t < n.max_num_records)) e core.free_below).0;
  not_free = (subst Distinct e core.free_distinct).0;
  origin = reused (omega (arith, ap length e)) le;
}

-- The branch below the limit.
take_below :
    (n : Node) (l : List ℕ)
    → n.free_records ≡ l
    → Inv n
    → n.num_active_records < n.max_num_records
    → (s : ℕ) × (n' : Node) × (get_free_record n ≡ ok (s, n')) × Taken s n n'
unfolding get_free_record
take_below n [] e v h = (
  n.num_active_records,
  n,
  ground arith,
  record {
    core = v.core;
    same_config = refl;
    same_rank = refl;
    same_contents = λ k. refl;
    unused = Below-Unused _ (in_order v.phase);
    below = h;
    not_free = rw e tt;
    origin = origin v.phase;
  },
)
  where
    in_order : Phase n → Below (mem_slot n.smap) n.num_active_records
    in_order (inl f) = f.in_order
    in_order (inr o) = absurd (omega (arith, ap length e))

    origin : Phase n → Origin n.num_active_records n
    origin (inl f) = fresh e refl f.counted f.in_order
    origin (inr o) = absurd (omega (arith, ap length e))
take_below n (s ∷ rest) e v h = (
  s,
  record n { free_records = rest },
  ground arith,
  Taken-pop n s rest n.num_active_records e v.core (known v.phase) (counted v.phase),
)
  where
    known : Phase n → mem_count n.smap + length n.free_records ≡ n.max_num_records
    known (inl f) = absurd (omega (arith, ap length e, ap length f.no_free))
    known (inr o) = o.all_known

    counted : Phase n → mem_count n.smap ≤ n.num_active_records
    counted (inl f) = omega arith
    counted (inr o) = o.counted

-- The end of the branch that dumped: a place is free now.
take_popped :
    (n : Node) (l : List ℕ)
    → n.free_records ≡ l
    → Core n
    → 0 < length l
    → mem_count n.smap + length n.free_records ≡ n.max_num_records
    → mem_count n.smap ≤ n.num_active_records + 1
    → (s : ℕ) × (n' : Node) × (pop_free n ≡ ok (s, n'))
      × Taken s n n'
      × (n'.num_active_records ≡ n.num_active_records + 1)
      × (n'.smap ≡ n.smap)
unfolding pop_free
take_popped n [] e core h known le = absurd (omega arith)
take_popped n (s ∷ rest) e core h known le = (
  s,
  record n { free_records = rest; num_active_records = n.num_active_records + 1 },
  ground arith,
  Taken-pop n s rest (n.num_active_records + 1) e core known le,
  refl,
  refl,
)

Taken-Dumped : (i s : ℕ) (n m n' : Node) → Dumped i n m → Taken s m n' → Taken s n n'
Taken-Dumped i s n m n' d t = record {
  core = t.core;
  same_config = t.same_config ∙ d.same_config;
  same_rank = t.same_rank ∙ d.same_rank;
  same_contents = λ k. t.same_contents k ∙ d.same_contents k;
  unused = t.unused;
  below = t.below;
  not_free = t.not_free;
  origin = t.origin;
}

pub full_known :
    (n : Node)
    → Phase n
    → n.max_num_records ≤ n.num_active_records
    → (mem_count n.smap + length n.free_records ≡ n.max_num_records)
      × (mem_count n.smap ≤ n.num_active_records)
full_known n (inl f) h = omega (arith, ap length f.no_free)
full_known n (inr o) h = (o.all_known, o.counted)

-- The branch at the limit. The counter grows by one beyond what the dump took from it.
pub take_overflow :
    (n : Node)
    → Inv n
    → n.max_num_records ≤ n.num_active_records
    → n.use_disk_overflow ≡ true
    → 0 < num_to_dump n.config (mem_count n.smap) + length n.free_records
    → (s : ℕ) × (n' : Node) × (get_free_record n ≡ ok (s, n'))
      × Taken s n n'
      × (n'.num_active_records ≡ n.num_active_records - num_to_dump n.config (mem_count n.smap) + 1)
      × (mem_count n'.smap + num_to_dump n.config (mem_count n.smap) ≡ mem_count n.smap)
unfolding get_free_record
take_overflow n v full on some_go =
    let (m, e, d) = dump_to_disk-Dumped n v.core in
    let (known, counted) = full_known n v.phase full in
    let room = ap (λ (c : Config). c.max_num_records) d.same_config in
    let (s, n', popped, t, up, same) =
      take_popped m m.free_records refl d.core (omega arith) (omega arith) (omega arith) in
    (
      s,
      n',
      ground (arith, e, popped),
      Taken-Dumped _ s n m n' d t,
      omega arith,
      omega (arith, ap mem_count same),
    )

pub get_free_record-Taken :
    (n : Node)
    → Inv n
    → HasRoom n
    → (s : ℕ) × (n' : Node) × (get_free_record n ≡ ok (s, n')) × Taken s n n'
get_free_record-Taken n v room = elim (Bool-cases (ltb n.num_active_records n.max_num_records)) [
  | inl e ↦ take_below n n.free_records refl v (ground arith)
  | inr e ↦
      let full : n.max_num_records ≤ n.num_active_records = ground arith in
      let (on, some_go) = second room full in
      let (s, n', p, t, _, _) = take_overflow n v full on some_go in (s, n', p, t)
]
  where
    second :
        HasRoom n
        → n.max_num_records ≤ n.num_active_records
        → (n.use_disk_overflow ≡ true)
          × (0 < num_to_dump n.config (mem_count n.smap) + length n.free_records)
    second (inl h) f = absurd (omega arith)
    second (inr h) f = h

-- The overflow can always make room: it is enabled, and a full pool has a record to dump.
abbrev pub CanOverflow : Config → Type 0
CanOverflow c = (c.use_disk_overflow ≡ true) × (c.ratio_den ≤ c.ratio_num * c.max_num_records)

num_to_dump-pos : (c : Config) → IsSane c → CanOverflow c → 0 < num_to_dump c c.max_num_records
unfolding num_to_dump
num_to_dump-pos c s h = grind arith

pub HasRoom-of_CanOverflow : (n : Node) → Inv n → CanOverflow n.config → HasRoom n
HasRoom-of_CanOverflow n v h = elim (Bool-cases (ltb n.num_active_records n.max_num_records)) [
  | inl e ↦ inl (ground arith)
  | inr e ↦
      let full : n.max_num_records ≤ n.num_active_records = ground arith in
      let (known, counted) = full_known n v.phase full in
      let some_go = num_to_dump-pos n.config v.core.sane h in inr (h.0, ground arith)
]
