-- ===== src/Ocore/Finalize/Tests.antt =====
-- The end of a job of src/grvy_ramdisk.cpp: a task that was sent a write and a read, and the
-- statistics of two tasks.
use grvy.Base.{
  ℕ, ◌≤◌, ◌<◌, ◌≡◌, refl, true, false, none, some, List, [], ◌∷◌, ◌++◌, map, ok, fail,
  assert_failed, if◌then◌else◌, arith,
}
use grvy.Base.Map.{find}
use grvy.Ocore.Types.{Block, Config, IsSane, Node}
use grvy.Ocore.Node.{start}
use grvy.Ocore.Invariant.{contents}
use grvy.Ocore.Invariant.Free.{CanOverflow}
use grvy.Ocore.Views.{mem_slot, disk_slot}
use grvy.Ocore.Start.{start-Inv}
use grvy.Ocore.Poll.{Message, poll, msg_code, msg_type}
use grvy.Ocore.Refinement.{promise}
use grvy.Ocore.Finalize.{finalize_sends, finalize_tasks, StatsLine, clear_pool}
use grvy.Ocore.Finalize.Left.{received_by, poll-finalize_sends}
use grvy.Ocore.Finalize.Dumped.{all_used, TellsTasks, finalize_tasks-dumped}

abbrev pool_of_two : Config
pool_of_two = record {
  use_disk_overflow = true;
  blocksize = 1;
  word_size = 8;
  max_num_records = 2;
  ratio_num = 1;
  ratio_den = 2;
}

abbrev message : ℕ → Block → Message
message code payload = record {
  sending_rank = 0;
  code = code;
  destination = 1;
  offset = 5;
  size = 1;
  payload = payload;
}

abbrev write_and_read : List Message
write_and_read = message 0 (50 ∷ []) ∷ message 2 [] ∷ []

pool_of_two-IsSane : IsSane pool_of_two
pool_of_two-IsSane = omega arith

overflows : CanOverflow (start pool_of_two 1).config
unfolding start
overflows = (refl, omega arith)

answers :
    promise (start pool_of_two 1).mpi_rank_global write_and_read (contents (start pool_of_two 1))
    ≡ ok ((0, 50 ∷ []) ∷ [], false)
unfolding start promise contents mem_slot disk_slot find msg_code msg_type
answers = refl

poll-finalize_sends_example :
    (let exits_to = received_by 1 (finalize_sends true true 1 1 2) in
      (1 ≤ 1
        → 1 < 2
        → (n' : Node) × (poll (write_and_read ++ (exits_to ++ [])) (start pool_of_two 1)
            ≡ ok (n', (0, 50 ∷ []) ∷ [], true)))
      × (1 < 1 → exits_to ≡ []))
poll-finalize_sends_example =
    poll-finalize_sends 1 1 2 1 write_and_read [] (start pool_of_two 1) ((0, 50 ∷ []) ∷ [])
      (start-Inv pool_of_two 1 pool_of_two-IsSane (omega arith)).0 overflows answers

abbrev with_record : ℕ → Node
with_record rank = record (start pool_of_two rank) {
  smap =
      (
        record { rank = 0; sparse_index = 5 },
        record { in_mem = true; index = 0; read_count = 1; write_count = 2 },
      )
      ∷ [];
}

finalize_tasks-dumped_example :
    (lines : List StatsLine) × (finalize_tasks true true
        (λ _. true)
        (with_record 1 ∷ with_record 2 ∷ [])
      ≡ (if all_used (with_record 2 ∷ [])
          then ok (some lines, map clear_pool (with_record 1 ∷ with_record 2 ∷ []))
          else fail assert_failed))
    × TellsTasks 1 (with_record 2 ∷ []) lines
    × (finalize_tasks true true (λ _. true) (with_record 1 ∷ [])
        ≡ ok (none, map clear_pool (with_record 1 ∷ [])))
finalize_tasks-dumped_example = finalize_tasks-dumped (with_record 1) (with_record 2) []
