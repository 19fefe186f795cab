-- ===== src/Ocore/Invariant.antt =====
-- The invariant of an Ocore task, and the records that it holds, as a function of the key.
pub mod Dump
pub mod Loop
pub mod Free
pub mod Stored
use grvy.Base.{
  ℕ, suc, ◌+◌, ◌*◌, ◌≤◌, ◌<◌, ◌≡◌, ◌≢◌, ◌⊎◌, inl, inr, refl, Bool, true, false, Option, none, some,
  List, [], ◌∷◌, arith, length, get_elem?, All,
}
use grvy.Base.Map.{Unique}
use grvy.Ocore.Types.{Block, SparseKey, Config, IsSane, Node, sparse_key}
use grvy.Ocore.Node.{disk_offset}
use grvy.Ocore.Views.{mem_slot, disk_slot, mem_count}
use grvy.Ocore.Slots.{Inj, Below, Unused}

-- No two entries are equal.
abbrev pub Distinct : List ℕ → Type 0
Distinct [] = Unit
Distinct (s ∷ l) = All (λ t. t ≢ s) l × Distinct l

-- Records have places of their own, in memory and in the file, and the free places are not theirs.
pub record Core (n : Node) : Type 0 where
  pub sane : IsSane n.config
  pub is_up : n.initialized ≡ true
  pub rank_pos : 0 < n.mpi_rank_global
  pub pool_size : length n.pool ≡ n.max_num_records
  pub unique : Unique n.smap
  pub mem_inj : Inj (mem_slot n.smap)
  pub mem_below : Below (mem_slot n.smap) n.max_num_records
  pub disk_inj : Inj (disk_slot n.smap)
  pub disk_below : Below (disk_slot n.smap) n.num_active_disk_records
  pub free_below : All (λ s. s < n.max_num_records) n.free_records
  pub free_unused : All (Unused (mem_slot n.smap)) n.free_records
  pub free_distinct : Distinct n.free_records
  pub filled :
      (i : ℕ)
      → i < n.num_active_disk_records
      → (b : Block) × (n.fp_tmp (disk_offset n.config i) ≡ some b)

-- Before the first overflow the places are given out in order.
pub record Filling (n : Node) : Type 0 where
  pub no_free : n.free_records ≡ []
  pub in_order : Below (mem_slot n.smap) n.num_active_records
  pub counted : n.num_active_records ≡ mem_count n.smap
  pub fits : n.num_active_records ≤ n.max_num_records

-- From the first overflow on each place is held or free, and the counter is no less than the number
-- of records in memory.
pub record Overflowed (n : Node) : Type 0 where
  pub all_known : mem_count n.smap + length n.free_records ≡ n.max_num_records
  pub counted : mem_count n.smap ≤ n.num_active_records

abbrev pub Phase : Node → Type 0
Phase n = Filling n ⊎ Overflowed n

pub record Inv (n : Node) : Type 0 where
  pub core : Core n
  pub phase : Phase n

-- The record that a place holds.
abbrev pub read_place : Node → Option ℕ → Option ℕ → Option Block
read_place n (some s) d = get_elem? n.pool s
read_place n none (some i) = n.fp_tmp (disk_offset n.config i)
read_place n none none = none

-- What the task holds under each key: the abstract state of the component.
unfoldable pub contents : Node → SparseKey → Option Block
contents n k = read_place n (mem_slot n.smap k) (disk_slot n.smap k)

-- Two records never share a byte of the overflow file.
pub disk_offset-lt :
    (c : Config) (i j : ℕ) → i < j → disk_offset c i + c.blocksize * c.word_size ≤ disk_offset c j
unfolding disk_offset
disk_offset-lt c i j h = grind arith

pub disk_offset-injective :
    (c : Config) (i j : ℕ) → IsSane c → disk_offset c i ≡ disk_offset c j → i ≡ j
disk_offset-injective c i j s e = grind (arith, disk_offset-lt c i j, disk_offset-lt c j i)
