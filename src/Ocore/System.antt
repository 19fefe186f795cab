-- ===== src/Ocore/System.antt =====
-- A worker task with the Ocore tasks: MPI delivers the messages of one sender in order, a write is
-- handled before the next message of its sender, and a read waits for its answer, so a run is a
-- sequence of these calls. The records of other worker tasks stand under other keys.
pub mod Rounds
pub mod Calls
pub mod Reads
pub mod Init
pub mod Pops
pub mod Drain
use grvy.Base.{ℕ, Bool, Option, none, some, List, [], ◌∷◌, Result, ok, fail, bad_access, ◌>>=◌}
use grvy.Base.Map.{nat_key}
use grvy.Ocore.Types.{Block, Node}
use grvy.Ocore.Slots.{upd}
use grvy.Ocore.Poll.{Message, Outcome, goes_on, exits, handle}
use grvy.Ocore.Client.{Client, Call, refused, sends, answered, write, read}

pub record System : Type 0 where
  pub client : Client
  pub tasks : ℕ → Node

-- The message goes to its destination, which handles it.
unfoldable pub deliver : System → Message → Result (List (ℕ × Block) × System)
deliver s m = handle (s.tasks m.destination) m >>= elim [
  | goes_on n sent ↦ ok (sent, record s { tasks = upd s.tasks m.destination n })
  | exits n ↦ ok ([], record s { tasks = upd s.tasks m.destination n })
]

-- The MPI_Recv of `Read_from_Pool`. Without an answer it would wait for ever.
abbrev pub first_block : List (ℕ × Block) → Result Block
first_block [] = fail bad_access
first_block ((to, b) ∷ rest) = ok b

-- `Write`: the return code and the state after it.
unfoldable pub sys_write : System → ℕ → ℕ → Block → Result (ℕ × System)
sys_write s size_of offset block = do
  (call, c) ← write s.client size_of offset block
  elim call [
    | refused ↦ ok (1, record s { client = c })
    | answered b ↦ ok (0, record s { client = c })
    | sends m ↦ do (sent, s') ← deliver (record s { client = c }) m; ok (0, s')
  ]

-- `Read`: the block, or none where it is refused, and the state after it.
unfoldable pub sys_read : System → ℕ → Result (Option Block × System)
sys_read s offset = do
  (call, c) ← read s.client offset
  elim call [
    | refused ↦ ok (none, record s { client = c })
    | answered b ↦ ok (some b, record s { client = c })
    | sends m ↦ do
      (sent, s') ← deliver (record s { client = c }) m
      b ← first_block sent
      ok (some b, s')
  ]
