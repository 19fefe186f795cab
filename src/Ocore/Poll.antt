-- ===== src/Ocore/Poll.antt =====
-- `PollForWork` in src/grvy_ramdisk.cpp: the messages that an Ocore task handles, in the order in
-- which it receives their headers. A write carries the payload that follows its header.
use grvy.Base.{
  ℕ, Bool, true, false, Option, none, some, List, [], ◌∷◌, ◌++◌, Result, ok, fail, aborted, ◌>>=◌,
  ◌==◌, if◌then◌else◌,
}
use grvy.Ocore.Types.{
  Block, Node, OcoreMsgType, ocore_write_new, ocore_update_old, ocore_read, ocore_exit,
}
use grvy.Ocore.Node.{store_data, pull_data}

-- The first entry of a header, as the number that is sent.
unfoldable pub msg_code : OcoreMsgType → ℕ
msg_code ocore_write_new = 0
msg_code ocore_update_old = 1
msg_code ocore_read = 2
msg_code ocore_exit = 3

-- The `switch` on `hbuf[0]`.
unfoldable pub msg_type : ℕ → Option OcoreMsgType
msg_type c =
    if c == 0
    then some ocore_write_new
    else if c == 1
    then some ocore_update_old
    else if c == 2
    then some ocore_read
    else if c == 3
    then some ocore_exit
    else none

pub record Message : Type 0 where
  pub sending_rank : ℕ
  pub code : ℕ
  pub destination : ℕ
  pub offset : ℕ
  pub size : ℕ
  pub payload : Block

-- What comes of a message: the loop goes on, perhaps with a block sent back to a rank, or ends.
pub data Outcome : Type 0 where
  goes_on : Node → List (ℕ × Block) → Outcome
  exits : Node → Outcome

unfoldable pub write_case : Node → Message → Result Outcome
write_case n m =
    if n.mpi_rank_global == m.destination
    then (do
      n' ← store_data n (record { rank = m.sending_rank; sparse_index = m.offset }) m.payload
      ok (goes_on n' []))
    else ok (goes_on n [])

unfoldable pub read_case : Node → Message → Result Outcome
read_case n m =
    if n.mpi_rank_global == m.destination
    then (do
      (b, n') ← pull_data n (record { rank = m.sending_rank; sparse_index = m.offset })
      ok (goes_on n' ((m.sending_rank, b) ∷ [])))
    else ok (goes_on n [])

-- One round of the loop.
unfoldable pub handle : Node → Message → Result Outcome
handle n m = elim (msg_type m.code) [
  | none ↦ fail aborted
  | some ty ↦ elim ty [
    | ocore_write_new ↦ write_case n m
    | ocore_update_old ↦ write_case n m
    | ocore_read ↦ read_case n m
    | ocore_exit ↦ ok (exits n)
  ]
]

-- The loop on the messages that have come so far: the task, the blocks that it sent back, and whether
-- it has left the loop.
unfoldable pub poll : List Message → Node → Result (Node × List (ℕ × Block) × Bool)
poll [] n = ok (n, [], false)
poll (m ∷ ms) n = handle n m >>= elim [
  | exits n' ↦ ok (n', [], true)
  | goes_on n' sent ↦ do (n'', more, done) ← poll ms n'; ok (n'', sent ++ more, done)
]
