-- ===== src/Ocore/Tests.antt =====
-- Concrete runs of the Ocore tasks, and the theorems at concrete inputs.
use mathlib.Core.Path.{subst}
use grvy.Base.{
  ap, ◌+◌, ◌^◌, ◌≤◌, ◌==◌, ℕ, ◌≡◌, refl, sym, ◌∙◌, Bool, true, false, none, some, List, [], ◌∷◌, ok,
  inl, inr, arith, ok-injective, if◌then◌else◌,
}
use grvy.Base.Map.{find, insert, modify, erase, nat_key}
use grvy.Ocore.Types.{Block, SparseKey, Config, IsSane, Node}
use grvy.Ocore.Node.{
  start, disk_offset, push, build_queue, num_to_dump, dump_record, dump_loop, dump_to_disk,
  pop_free, get_free_record, new_record, recv_in_pool, recv_on_disk, store_data, pull_data,
}
use grvy.Ocore.Invariant.{Inv, contents}
use grvy.Ocore.Invariant.Free.{HasRoom, CanOverflow}
use grvy.Ocore.Invariant.Loop.{Dumped, dump_to_disk-Dumped}
use grvy.Ocore.Views.{mem_slot, mem_count, disk_slot, new_datagram}
use grvy.Ocore.Start.{start-Inv}
use grvy.Ocore.Store.{Wrote, store_data-Wrote}
use grvy.Ocore.Pull.{Answers, pull_data-Answers}
use grvy.Ocore.Poll.{Message, msg_code, msg_type, write_case, read_case, handle, poll}
use grvy.Ocore.Refinement.{promise, observed, poll-promise}
use grvy.Ocore.LeastRead.{reads, dump_to_disk-least}
use grvy.Ocore.Client.{num_active}
use grvy.Ocore.System.{System, sys_write, sys_read}
use grvy.Base.{fail, bad_access}
use grvy.Ocore.System.Pops.{sys_pop, pops}
use grvy.Ocore.System.Drain.{writes, last_of, InOrder, writes-pops}
use grvy.Ocore.System.Rounds.{SysInv, view}
use grvy.Ocore.System.Reads.{
  Small, sys_write-view, ReadAnswers, sys_read-ReadAnswers, offset_collision,
}
use grvy.Ocore.System.Init.{init_system, init_system-SysInv}

program : Unit {0}
unfolding start disk_offset push build_queue num_to_dump dump_record dump_loop dump_to_disk pop_free
    get_free_record new_record recv_in_pool recv_on_disk store_data pull_data find insert modify
    erase contents mem_slot mem_count disk_slot msg_code msg_type write_case read_case handle poll
    promise reads
program = tt

-- A pool of two records, half of which a dump moves.
abbrev two_records : Config
two_records = record {
  use_disk_overflow = true;
  blocksize = 1;
  word_size = 8;
  max_num_records = 2;
  ratio_num = 1;
  ratio_den = 2;
}

abbrev key : ℕ → SparseKey
key o = record { rank = 0; sparse_index = o }

abbrev message : ℕ → ℕ → Block → Message
message code offset payload = record {
  sending_rank = 0;
  code = code;
  destination = 1;
  offset = offset;
  size = 1;
  payload = payload;
}

-- Three records are written, which overflows the pool, and two of them are read.
abbrev messages : List Message
messages =
    message 0 5 (50 ∷ [])
    ∷ message 0 6 (60 ∷ [])
    ∷ message 2 5 []
    ∷ message 0 7 (70 ∷ [])
    ∷ message 2 6 []
    ∷ message 2 5 []
    ∷ message 3 0 []
    ∷ []

run_messages :
    observed (poll messages (start two_records 1))
    ≡ ok ((0, 50 ∷ []) ∷ (0, 60 ∷ []) ∷ (0, 50 ∷ []) ∷ [], true)
unfolding program
run_messages = refl

two_records-IsSane : IsSane two_records
two_records-IsSane = omega arith

started-Inv :
    Inv (start two_records 1) × ((k : SparseKey) → contents (start two_records 1) k ≡ none)
started-Inv = start-Inv two_records 1 two_records-IsSane (omega arith)

start_config : CanOverflow (start two_records 1).config
unfolding start
start_config = (refl, omega arith)

poll-promise_example :
    observed (poll messages (start two_records 1))
    ≡ promise (start two_records 1).mpi_rank_global messages (contents (start two_records 1))
poll-promise_example = poll-promise messages (start two_records 1) started-Inv.0 start_config

start_room : HasRoom (start two_records 1)
unfolding start
start_room = inl (omega arith)

store_data-Wrote_example :
    (n' : Node) × (store_data (start two_records 1) (key 5) (50 ∷ []) ≡ ok n')
    × Wrote (start two_records 1) (key 5) (50 ∷ []) n'
store_data-Wrote_example =
    store_data-Wrote (start two_records 1) (key 5) (50 ∷ []) started-Inv.0 (inr start_room)

store-Inv :
    (n n' : Node) (k : SparseKey) (b : Block)
    → Inv n
    → HasRoom n
    → store_data n k b ≡ ok n'
    → Inv n'
store-Inv n n' k b v room e =
    let (m, e', w) = store_data-Wrote n k b v (inr room) in
    subst Inv (ok-injective (sym e' ∙ e)) w.inv

-- The task with the record 5, and the full one with the records 5 and 6, of which 5 was read.
abbrev one_stored : Node
one_stored = record {
  config = two_records;
  initialized = true;
  mpi_rank_global = 1;
  overflow_triggered = false;
  num_active_records = 1;
  num_active_disk_records = 0;
  pool = (50 ∷ []) ∷ (0 ∷ []) ∷ [];
  smap = (key 5, new_datagram 0) ∷ [];
  free_records = [];
  fp_tmp = λ _. none;
}

abbrev two_stored : Node
two_stored = record one_stored {
  num_active_records = 2;
  pool = (50 ∷ []) ∷ (60 ∷ []) ∷ [];
  smap = (key 5, new_datagram 0) ∷ (key 6, new_datagram 1) ∷ [];
}

one_stored-Inv : Inv one_stored
unfolding program
one_stored-Inv =
    store-Inv (start two_records 1) one_stored (key 5) (50 ∷ []) started-Inv.0 start_room refl

two_stored-Inv : Inv two_stored
unfolding program
two_stored-Inv =
    store-Inv one_stored two_stored (key 6) (60 ∷ []) one_stored-Inv (inl (omega arith)) refl

abbrev two_read : Node
two_read = record two_stored {
  smap =
      (key 5, record { in_mem = true; index = 0; read_count = 1; write_count = 1 })
      ∷ (key 6, new_datagram 1)
      ∷ [];
}

pull-Inv :
    (n n' : Node) (k : SparseKey) (b : Block)
    → Inv n
    → contents n k ≡ some b
    → pull_data n k ≡ ok (b, n')
    → Inv n'
pull-Inv n n' k b v h e =
    let (m, e', kept) = subst (λ o. Answers o n (pull_data n k)) h (pull_data-Answers n k v) in
    subst Inv (ap (λ (p : Block × Node). p.1) (ok-injective (sym e' ∙ e))) kept.inv

two_read-Inv : Inv two_read
unfolding program
two_read-Inv = pull-Inv two_stored two_read (key 5) (50 ∷ []) two_stored-Inv refl refl

dump_to_disk-Dumped_example :
    (n' : Node) × (dump_to_disk two_read ≡ ok n')
    × Dumped (num_to_dump two_read.config (mem_count two_read.smap)) two_read n'
dump_to_disk-Dumped_example = dump_to_disk-Dumped two_read two_read-Inv.core

-- The record 6 was read less often than 5, and goes to disk.
abbrev two_dumped : Node
two_dumped =
    dump_record (record { priority = 0; key = key 6; ocore_index = 1 }) (60 ∷ [])
      (record two_read { overflow_triggered = true })

dump_to_disk-least_example : reads two_read.smap (key 6) ≤ reads two_read.smap (key 5)
unfolding program
dump_to_disk-least_example =
    dump_to_disk-least two_read two_dumped (key 6) (key 5) 1 0 two_read-Inv.core refl refl refl refl

-- A pool of one record, with the default watermark of a tenth.
abbrev small_config : Bool → Config
small_config overflow = record two_records {
  use_disk_overflow = overflow;
  max_num_records = 1;
  ratio_den = 10;
}

abbrev small_stored : Bool → Node
small_stored overflow = record one_stored { config = small_config overflow; pool = (50 ∷ []) ∷ [] }

small_stored-no_room : ¬ HasRoom (small_stored false)
small_stored-no_room (inl h) = omega arith
small_stored-no_room (inr h) = cc (h.0)

-- A worker of rank 0 with one Ocore task.
abbrev small_system : System
small_system = init_system two_records true 0 1 1

small_system-SysInv :
    SysInv small_system × Small small_system × ((o : ℕ) → view small_system o ≡ none)
unfolding start
small_system-SysInv =
    init_system-SysInv two_records true 0 1 1 two_records-IsSane start_config (omega arith)
      (omega arith)

sys_write-view_example :
    (s' : System) × (sys_write small_system 8 9 (90 ∷ []) ≡ ok (0, s'))
    × SysInv s'
    × Small s'
    × ((p : ℕ) → view s' p ≡ (if 9 == p then some (90 ∷ []) else view small_system p))
unfolding init_system
sys_write-view_example =
    sys_write-view small_system 8 9 (90 ∷ []) small_system-SysInv.0 small_system-SysInv.1 refl
      (omega arith)

sys_read-ReadAnswers_example : ReadAnswers small_system 9 (view small_system 9)
sys_read-ReadAnswers_example = sys_read-ReadAnswers small_system 9 small_system-SysInv.0

abbrev three_writes : List (ℕ × Block)
three_writes = (9, 90 ∷ []) ∷ (4, 40 ∷ []) ∷ (9, 91 ∷ []) ∷ []

writes-pops_example :
    (s1 : System) × (l : List (ℕ × Block)) × (s2 : System) × (writes three_writes small_system
      ≡ ok s1)
    × (pops (num_active s1.client.rank_map) s1 ≡ ok (l, s2))
    × InOrder l
    × ((o : ℕ) → find o l ≡ last_of three_writes o none)
    × (s2.client.rank_map ≡ [])
    × ((o r : ℕ) (rest : List (ℕ × ℕ))
        → s1.client.rank_map ≡ (o, r) ∷ rest
        → sys_pop s1 ≡ fail bad_access)
unfolding init_system
writes-pops_example =
    writes-pops three_writes small_system small_system-SysInv.0 refl
      (omega arith, (omega arith, (omega arith, tt)))

offset_collision_example :
    (s1 : System) × (s2 : System) × (s3 : System) × (sys_write small_system 8 9 (90 ∷ [])
      ≡ ok (0, s1))
    × (sys_write s1 8 (9 + 2 ^ 32) (13 ∷ []) ≡ ok (0, s2))
    × (sys_read s2 9 ≡ ok (some (13 ∷ []), s3))
unfolding init_system
offset_collision_example =
    offset_collision small_system 8 9 (9 + 2 ^ 32) (90 ∷ []) (13 ∷ []) small_system-SysInv.0 refl
      refl refl
