-- ===== src/Ocore/Start.antt =====
-- The task that `Initialize` sets up keeps the invariant and holds no record.
use grvy.Base.{ℕ, zero, suc, ◌<◌, ◌≡◌, refl, inl, none, length, replicate, arith}
use grvy.Ocore.Types.{SparseKey, Config, IsSane}
use grvy.Ocore.Node.{start}
use grvy.Ocore.Views.{mem_slot, disk_slot, mem_count}
use grvy.Ocore.Invariant.{Inv, contents}
use grvy.Base.Map.{find}

length-replicate {ℓ} : {A : Type ℓ} (n : ℕ) (a : A) → length (replicate n a) ≡ n
length-replicate zero a = refl
length-replicate (suc n) a = omega (arith, length-replicate n a)

-- With sane inputs, on a rank other than the master's, a fresh task keeps the invariant and holds
-- no record.
pub start-Inv :
    (c : Config) (rank : ℕ)
    → IsSane c
    → 0 < rank
    → Inv (start c rank) × ((k : SparseKey) → contents (start c rank) k ≡ none)
unfolding start contents mem_slot disk_slot find mem_count
start-Inv c rank sane pos = (
  record {
    core = record {
      sane = sane;
      is_up = refl;
      rank_pos = pos;
      pool_size = length-replicate c.max_num_records (replicate c.blocksize 0);
      unique = tt;
      mem_inj = record { apply = λ j k s p q. cc };
      mem_below = record { apply = λ k s p. cc };
      disk_inj = record { apply = λ j k s p q. cc };
      disk_below = record { apply = λ k s p. cc };
      free_below = tt;
      free_unused = tt;
      free_distinct = tt;
      filled = λ i h. absurd (omega arith);
    };
    phase = inl (record {
      no_free = refl;
      in_order = record { apply = λ k s p. cc };
      counted = refl;
      fits = omega arith;
    });
  },
  λ k. refl,
)
