-- ===== src/Ocore/Pop.antt =====
-- The order of the map of records of a worker of src/grvy_ramdisk.cpp, which PopRecord goes by.
use grvy.Base.{
  ℕ, ◌+◌, ◌<◌, Bool, true, false, ◌||◌, none, some, List, [], ◌∷◌, All, ◌==◌, ◌≡◌, ok, Bool-cases,
  Option-cases, inl, inr, arith,
}
use grvy.Base.Map.{find, insert, nat_key}
use grvy.Base.Map.Laws.{find-insert}
use grvy.Ocore.Types.{Block}
use grvy.Ocore.Client.{Client, Call, sends, write, assign_ownership, write_to_pool}

-- std::map goes through its keys in order.
abbrev pub IsAscending : List (ℕ × ℕ) → Type 0
IsAscending [] = Unit
IsAscending ((j, w) ∷ m) = All (λ e. j < e.0) m × IsAscending m

All-insert :
    (j k v : ℕ) (m : List (ℕ × ℕ))
    → j < k
    → All (λ e. j < e.0) m
    → All (λ e. j < e.0) (insert k v m)
unfolding insert
All-insert j k v [] h a = (h, tt)
All-insert j k v ((i, w) ∷ m) h a = ground (arith, h, a, All-insert j k v m)

All-trans : (j i : ℕ) (m : List (ℕ × ℕ)) → j < i → All (λ e. i < e.0) m → All (λ e. j < e.0) m
All-trans j i [] h a = tt
All-trans j i (e ∷ m) h (b, a) = (omega arith, All-trans j i m h a)

insert-IsAscending : (k v : ℕ) (m : List (ℕ × ℕ)) → IsAscending m → IsAscending (insert k v m)
unfolding insert
insert-IsAscending k v [] a = (tt, tt)
insert-IsAscending k v ((i, w) ∷ m) (b, a) =
    ground (arith, b, a, All-insert i k v m, All-trans k i m, insert-IsAscending k v m a)

pub find-lower : (i j w : ℕ) (m : List (ℕ × ℕ)) → All (λ e. i < e.0) m → find j m ≡ some w → i < j
unfolding find
find-lower i j w [] a h = ground arith
find-lower i j w ((k, v) ∷ m) (b, a) h = ground (arith, b, h, find-lower i j w m a)

abbrev pub known : ℕ → Client → Bool
known j c = elim (find j c.rank_map) [ none ↦ false | some _ ↦ true ]

pub write-known :
    (c : Client) (o : ℕ) (b : Block)
    → c.use_mpi_ocore ≡ true
    → IsAscending c.rank_map
    → (r : Call × Client) × (write c c.word_size o b ≡ ok r)
      × (r.1.use_mpi_ocore ≡ true)
      × IsAscending r.1.rank_map
      × ((j : ℕ) → known j r.1 ≡ (o == j) || known j c)
unfolding write assign_ownership
write-known c o b h a =
    let owner = c.distrib_rank + c.starting_rank in
    elim (Option-cases (find o c.rank_map)) [
      | inl e ↦ (
        (sends (write_to_pool (assign_ownership c o).1 owner true o b), (assign_ownership c o).1),
        ground (arith, h, e),
        h,
        insert-IsAscending o owner c.rank_map a,
        λ j. ground (arith, find-insert o j owner c.rank_map),
      )
      | inr (w, e) ↦ (
        (sends (write_to_pool c w false o b), c),
        ground (arith, h, e),
        h,
        a,
        λ j. elim (Bool-cases (o == j)) [
          | inl q ↦
              let same : o ≡ j = ground (arith, q) in
              let found : find j c.rank_map ≡ some w = cc in ground (arith, q, found)
          | inr q ↦ ground (arith, q)
        ],
      )
    ]
