-- ===== src/Ocore/Client.antt =====
-- The side of a worker task in src/grvy_ramdisk.cpp: who holds which record, and the messages that
-- a write and a read send. Lengths of blocks are as the caller made them.
use grvy.Base.{
  ℕ, ◌+◌, ◌-◌, ◌%◌, ◌^◌, Bool, true, false, none, some, List, [], ◌∷◌, replicate, ltb, ◌==◌,
  if◌then◌else◌, Result, ok, fail, aborted, assert_failed, guard, ◌>>◌,
}
use grvy.Base.Map.{find, insert, nat_key}
use grvy.Ocore.Types.{Block, OcoreMsgType, ocore_write_new, ocore_update_old, ocore_read}
use grvy.Ocore.Poll.{Message, msg_code}

-- The members of GRVY_MPI_Ocore_ClassImp that a worker task uses.
pub record Client : Type 0 where
  pub use_mpi_ocore : Bool
  pub allow_empty_records : Bool
  pub word_size : ℕ
  pub blocksize : ℕ
  pub mpi_rank_global : ℕ
  pub starting_rank : ℕ
  pub num_ocore_tasks : ℕ
  pub distrib_rank : ℕ
  pub num_empty_reads : ℕ
  pub rank_map : List (ℕ × ℕ)

-- A size_t that is sent as the int `hbuf[2]` and received as a size_t: the low 32 bits, extended by
-- their sign.
unfoldable pub as_header_int : ℕ → ℕ
as_header_int offset =
    let low = offset % 2 ^ 32 in if ltb low (2 ^ 31) then low else low + (2 ^ 64 - 2 ^ 32)

-- `AssignOwnership`: the tasks in turn.
unfoldable pub assign_ownership : Client → ℕ → ℕ × Client
assign_ownership c sparse_index =
    let owner = c.distrib_rank + c.starting_rank in
    let next = c.distrib_rank + 1 in
    (
      owner,
      record c {
        distrib_rank = if next == c.num_ocore_tasks then 0 else next;
        rank_map = insert sparse_index owner c.rank_map;
      },
    )

unfoldable pub header : Client → OcoreMsgType → ℕ → ℕ → Block → Message
header c ty task offset block = record {
  sending_rank = c.mpi_rank_global;
  code = msg_code ty;
  destination = task;
  offset = as_header_int offset;
  size = c.blocksize;
  payload = block;
}

-- `Write_to_Pool`: the header and the block, as one message.
unfoldable pub write_to_pool : Client → ℕ → Bool → ℕ → Block → Message
write_to_pool c dest_task new_data offset block =
    header c (if new_data then ocore_write_new else ocore_update_old) dest_task offset block

-- What a public call returns: an error code with no message, or a message to the task that owns the
-- record; a read may be answered on the spot.
pub data Call : Type 0 where
  refused : Call
  sends : Message → Call
  answered : Block → Call

-- `Write`, of words of the given size.
unfoldable pub write : Client → ℕ → ℕ → Block → Result (Call × Client)
write c size_of offset block =
    if c.use_mpi_ocore
    then (do
      guard (size_of == c.word_size) assert_failed
      elim (find offset c.rank_map) [
        | none ↦
            let (owner, c') = assign_ownership c offset in
            ok (sends (write_to_pool c' owner true offset block), c')
        | some owner ↦ ok (sends (write_to_pool c owner false offset block), c)
      ])
    else ok (refused, c)

-- `Read`, up to the message that asks for the record.
unfoldable pub read : Client → ℕ → Result (Call × Client)
read c offset =
    if c.use_mpi_ocore
    then elim (find offset c.rank_map) [
      | none ↦
          if c.allow_empty_records
          then ok (
            answered (replicate c.blocksize 0),
            record c { num_empty_reads = c.num_empty_reads + 1 },
          )
          else fail aborted
      | some owner ↦ ok (sends (header c ocore_read owner offset []), c)
    ]
    else ok (refused, c)

-- `NumActive`.
unfoldable pub num_active : List (ℕ × ℕ) → ℕ
num_active [] = 0
num_active (e ∷ m) = num_active m + 1
