-- ===== src/Ocore/Views.antt =====
-- The sparse map of an Ocore task seen as two partial functions from keys to places, and the number
-- of records in memory. One law for each way in which the code changes the map.
use mathlib.Core.Path.{fun_ext}
use grvy.Base.{
  ℕ, suc, ◌+◌, ◌≡◌, refl, Bool, true, false, Option, none, some, List, [], ◌∷◌, arith,
  if◌then◌else◌, Option-cases, inl, inr,
}
use grvy.Base.Map.{find, insert, modify}
use grvy.Base.Map.Laws.{find-insert, find-modify}
use grvy.Ocore.Types.{Datagram, SparseKey, key_beq_iff, sparse_key}
use grvy.Ocore.Slots.{upd}

abbrev pub Smap : Type 0
Smap = List (SparseKey × Datagram)

-- The pool index of a record in memory, and the file index of a record on disk.
abbrev pub slot_of : Bool → Option Datagram → Option ℕ
slot_of side none = none
slot_of true (some d) = if d.in_mem then some d.index else none
slot_of false (some d) = if d.in_mem then none else some d.index

unfoldable pub mem_slot : Smap → SparseKey → Option ℕ
mem_slot m k = slot_of true (find k m)

unfoldable pub disk_slot : Smap → SparseKey → Option ℕ
disk_slot m k = slot_of false (find k m)

-- How many records are in memory.
unfoldable pub mem_count : Smap → ℕ
mem_count [] = 0
mem_count ((k, d) ∷ m) = if d.in_mem then suc (mem_count m) else mem_count m

abbrev pub to_disk : ℕ → Datagram → Datagram
to_disk i d = record d { in_mem = false; index = i }

abbrev pub new_datagram : ℕ → Datagram
new_datagram i = record { in_mem = true; index = i; read_count = 0; write_count = 1 }

module _ (k : SparseKey) (m : Smap) where
  pub mem_slot-to_disk : (i : ℕ) → mem_slot (modify k (to_disk i) m) ≡ upd (mem_slot m) k none
  unfolding mem_slot
  mem_slot-to_disk i = fun_ext λ j. ground (arith, find-modify k j (to_disk i) m)

  pub disk_slot-to_disk :
      (i : ℕ) (d : Datagram)
      → find k m ≡ some d
      → disk_slot (modify k (to_disk i) m) ≡ upd (disk_slot m) k (some i)
  unfolding disk_slot
  disk_slot-to_disk i d e =
      fun_ext λ j. ground (arith, find-modify k j (to_disk i) m, key_beq_iff k j)

  pub mem_slot-insert :
      (i : ℕ) → mem_slot (insert k (new_datagram i) m) ≡ upd (mem_slot m) k (some i)
  unfolding mem_slot
  mem_slot-insert i = fun_ext λ j. ground (arith, find-insert k j (new_datagram i) m)

  pub disk_slot-insert :
      (i : ℕ) → disk_slot (insert k (new_datagram i) m) ≡ upd (disk_slot m) k none
  unfolding disk_slot
  disk_slot-insert i = fun_ext λ j. ground (arith, find-insert k j (new_datagram i) m)

  pub find_of_mem_slot :
      (s : ℕ)
      → mem_slot m k ≡ some s
      → (d : Datagram) × (find k m ≡ some d) × (d.in_mem ≡ true) × (d.index ≡ s)
  unfolding mem_slot
  find_of_mem_slot s e = ground arith

  pub slots_of_none : find k m ≡ none → (mem_slot m k ≡ none) × (disk_slot m k ≡ none)
  unfolding mem_slot disk_slot
  slots_of_none e = ground arith

  pub slots_of_some :
      (d : Datagram)
      → find k m ≡ some d
      → (mem_slot m k ≡ (if d.in_mem then some d.index else none))
        × (disk_slot m k ≡ (if d.in_mem then none else some d.index))
  unfolding mem_slot disk_slot
  slots_of_some d e = ground arith

pub mem_count-to_disk :
    (k : SparseKey) (m : Smap) (i s : ℕ)
    → mem_slot m k ≡ some s
    → mem_count (modify k (to_disk i) m) + 1 ≡ mem_count m
unfolding mem_slot mem_count find modify
mem_count-to_disk k [] i s e = ground arith
mem_count-to_disk k ((j, d) ∷ m) i s e = ground (arith, mem_count-to_disk k m i s)

pub mem_count-insert :
    (k : SparseKey) (m : Smap) (i : ℕ)
    → find k m ≡ none
    → mem_count (insert k (new_datagram i) m) ≡ mem_count m + 1
unfolding mem_count find insert
mem_count-insert k [] i e = ground arith
mem_count-insert k ((j, d) ∷ m) i e = ground (arith, mem_count-insert k m i)

-- A change of the counters only.
abbrev pub KeepsPlace : (Datagram → Datagram) → Type 0
KeepsPlace f = (d : Datagram) → ((f d).in_mem ≡ d.in_mem) × ((f d).index ≡ d.index)

module _ (k : SparseKey) (f : Datagram → Datagram) (same : KeepsPlace f) where
  slot_of-modify :
      (b : Bool) (j : SparseKey) (m : Smap)
      → slot_of b (find j (modify k f m)) ≡ slot_of b (find j m)
  slot_of-modify b j m = elim (Option-cases (find j m)) [
    | inl e ↦ rw (find-modify k j f m, e) (ground arith)
    | inr (d, e) ↦ rw (find-modify k j f m, e) (ground (arith, same d))
  ]

  pub mem_slot-modify : (m : Smap) → mem_slot (modify k f m) ≡ mem_slot m
  unfolding mem_slot
  mem_slot-modify m = fun_ext λ j. slot_of-modify true j m

  pub disk_slot-modify : (m : Smap) → disk_slot (modify k f m) ≡ disk_slot m
  unfolding disk_slot
  disk_slot-modify m = fun_ext λ j. slot_of-modify false j m

  pub mem_count-modify : (m : Smap) → mem_count (modify k f m) ≡ mem_count m
  unfolding mem_count modify
  mem_count-modify [] = refl
  mem_count-modify ((j, d) ∷ m) = ground (arith, same d, mem_count-modify m)
