-- ===== src/Ocore/System/Init.antt =====
-- A worker task and the Ocore tasks after `Initialize`.
use grvy.Base.{ℕ, ◌<◌, ◌≡◌, refl, Bool, true, none, [], arith}
use grvy.Base.Map.{find, nat_key}
use grvy.Ocore.Types.{Config, IsSane}
use grvy.Ocore.Node.{start}
use grvy.Ocore.Invariant.Free.{CanOverflow}
use grvy.Ocore.Start.{start-Inv}
use grvy.Ocore.Client.{Client}
use grvy.Ocore.System.{System}
use grvy.Ocore.System.Rounds.{SysInv, view}
use grvy.Ocore.System.Reads.{Small}

-- The worker of the given rank, when the Ocore tasks have the ranks from `starting_rank` on.
unfoldable pub init_client : Config → Bool → ℕ → ℕ → ℕ → Client
init_client cfg empties rank starting_rank num_ocore_tasks = record {
  use_mpi_ocore = true;
  allow_empty_records = empties;
  word_size = cfg.word_size;
  blocksize = cfg.blocksize;
  mpi_rank_global = rank;
  starting_rank = starting_rank;
  num_ocore_tasks = num_ocore_tasks;
  distrib_rank = 0;
  num_empty_reads = 0;
  rank_map = [];
}

unfoldable pub init_system : Config → Bool → ℕ → ℕ → ℕ → System
unfolding init_client
init_system cfg empties rank starting_rank num_ocore_tasks = record {
  client = init_client cfg empties rank starting_rank num_ocore_tasks;
  tasks = λ r. start cfg r;
}

-- With sane inputs, at least one Ocore task and an overflow that can make room, the state after the
-- initialisation keeps the invariant, and the worker sees no record.
pub init_system-SysInv :
    (cfg : Config) (empties : Bool) (rank starting_rank num_ocore_tasks : ℕ)
    → IsSane cfg
    → CanOverflow cfg
    → 0 < starting_rank
    → 0 < num_ocore_tasks
    → let s = init_system cfg empties rank starting_rank num_ocore_tasks in
      SysInv s × Small s × ((o : ℕ) → view s o ≡ none)
unfolding init_system view start find
init_system-SysInv cfg empties rank starting_rank num_ocore_tasks sane room first some_tasks = (
  record {
    enabled = refl;
    in_turn = some_tasks;
    tasks_inv =
        λ r is. record { inv = (start-Inv cfg r sane (omega arith)).0; rank = refl; room = room };
    owners = λ o r e. absurd (cc e);
    holds = λ o r e. absurd (cc e);
  },
  (λ o r e. absurd (cc e)),
  λ o. refl,
)
