-- ===== src/Ocore/Refinement.antt =====
-- What an Ocore task promises to the worker tasks, and that it keeps the promise: the pool, the
-- overflow file and the counters cannot be told from one map of records.
use mathlib.Core.Path.{fun_ext, subst}
use grvy.Base.{
  ℕ, ◌≡◌, refl, Bool, true, false, Option, none, some, List, [], ◌∷◌, ◌++◌, Result, ok, fail, Fault,
  aborted, assert_failed, ◌==◌, if◌then◌else◌, Bool-cases, inl, inr, arith,
}
use grvy.Ocore.Types.{
  Block, SparseKey, Node, OcoreMsgType, ocore_write_new, ocore_update_old, ocore_read, ocore_exit,
  sparse_key,
}
use grvy.Ocore.Node.{pull_data}
use grvy.Ocore.Slots.{upd}
use grvy.Ocore.Invariant.{Inv, contents}
use grvy.Ocore.Invariant.Free.{CanOverflow, HasRoom-of_CanOverflow}
use grvy.Ocore.Store.{store_data-Wrote}
use grvy.Ocore.Pull.{Answers, pull_data-Answers}
use grvy.Ocore.Poll.{
  Message, Outcome, goes_on, exits, handle, poll, msg_type, write_case, read_case,
}

abbrev pub Records : Type 0
Records = SparseKey → Option Block

abbrev pub key_of : Message → SparseKey
key_of m = record { rank = m.sending_rank; sparse_index = m.offset }

-- The promise for one message: a write sets the sender's record, a read sends it back (none: the
-- record was never written, which is a failed assertion), an exit ends the loop, and any other message aborts.
pub data Reply : Type 0 where
  continues : Records → List (ℕ × Block) → Reply
  ends : Reply
  stops : Fault → Reply

abbrev pub sent_back : ℕ → Records → Option Block → Reply
sent_back to f none = stops assert_failed
sent_back to f (some b) = continues f ((to, b) ∷ [])

abbrev pub promised : ℕ → Option OcoreMsgType → Message → Records → Reply
promised rank none m f = stops aborted
promised rank (some ocore_write_new) m f =
    if rank == m.destination
    then continues (upd f (key_of m) (some m.payload)) []
    else continues f []
promised rank (some ocore_update_old) m f =
    if rank == m.destination
    then continues (upd f (key_of m) (some m.payload)) []
    else continues f []
promised rank (some ocore_read) m f =
    if rank == m.destination then sent_back m.sending_rank f (f (key_of m)) else continues f []
promised rank (some ocore_exit) m f = ends

-- The blocks that are sent back in answer to the messages, and whether the loop was left; or the
-- fault by which the task stops.
unfoldable pub promise : ℕ → List Message → Records → Result (List (ℕ × Block) × Bool)
promise rank [] f = ok ([], false)
promise rank (m ∷ ms) f = elim (promised rank (msg_type m.code) m f) [
  | continues g sent ↦ elim (promise rank ms g) [
    | fail e ↦ fail e
    | ok (more, done) ↦ ok (sent ++ more, done)
  ]
  | ends ↦ ok ([], true)
  | stops e ↦ fail e
]

abbrev pub Refines : Node → Result Outcome → Reply → Type 0
Refines n r (continues g sent) =
    (n' : Node) × (r ≡ ok (goes_on n' sent))
    × Inv n'
    × (n'.config ≡ n.config)
    × (n'.mpi_rank_global ≡ n.mpi_rank_global)
    × (contents n' ≡ g)
Refines n r ends = (n' : Node) × (r ≡ ok (exits n'))
Refines n r (stops e) = r ≡ fail e

module _ (n : Node) (m : Message) (v : Inv n) where
  write_case-Refines :
      CanOverflow n.config
      → Refines n (write_case n m) (
          if n.mpi_rank_global == m.destination
          then continues (upd (contents n) (key_of m) (some m.payload)) []
          else continues (contents n) [])
  unfolding write_case
  write_case-Refines may = elim (Bool-cases (n.mpi_rank_global == m.destination)) [
    | inl e ↦
        let (n', stored, w) =
          store_data-Wrote n (key_of m) m.payload v (inr (HasRoom-of_CanOverflow n v may)) in
        rw (e, stored) (n', refl, w.inv, w.same_config, w.same_rank, fun_ext w.reads)
    | inr e ↦ rw e (n, refl, v, refl, refl, refl)
  ]

  answer :
      (o : Option Block)
      → Answers o n (pull_data n (key_of m))
      → contents n (key_of m) ≡ o
      → n.mpi_rank_global == m.destination ≡ true
      → Refines n (read_case n m) (sent_back m.sending_rank (contents n) o)
  unfolding read_case
  answer none a h e = rw (e, a)
  answer (some b) (n', a, k) h e =
      (n', rw (e, a), k.inv, k.same_config, k.same_rank, fun_ext k.reads)

  read_case-Refines : Refines n (read_case n m) (
      if n.mpi_rank_global == m.destination
      then sent_back m.sending_rank (contents n) (contents n (key_of m))
      else continues (contents n) [])
  read_case-Refines = elim (Bool-cases (n.mpi_rank_global == m.destination)) [
    | inl e ↦ rw e (answer (contents n (key_of m)) (pull_data-Answers n (key_of m) v) refl e)
    | inr e ↦ rw e (n, unfold read_case in rw e, v, refl, refl, refl)
  ]

  pub handle_type :
      (ty : Option OcoreMsgType)
      → msg_type m.code ≡ ty
      → CanOverflow n.config
      → Refines n (handle n m) (promised n.mpi_rank_global ty m (contents n))
  unfolding handle
  handle_type none e may = rw (e, handle)
  handle_type (some ocore_write_new) e may = rw (e, handle) (write_case-Refines may)
  handle_type (some ocore_update_old) e may = rw (e, handle) (write_case-Refines may)
  handle_type (some ocore_read) e may = rw (e, handle) read_case-Refines
  handle_type (some ocore_exit) e may = (n, rw (e, handle))

-- What can be seen of a run.
abbrev pub observed : Result (Node × List (ℕ × Block) × Bool) → Result (List (ℕ × Block) × Bool)
observed (ok (n, sent, done)) = ok (sent, done)
observed (fail e) = fail e

poll_step :
    (n : Node) (m : Message) (ms : List Message) (r : Reply)
    → Refines n (handle n m) r
    → promised n.mpi_rank_global (msg_type m.code) m (contents n) ≡ r
    → ((n' : Node)
        → Inv n'
        → n'.config ≡ n.config
        → observed (poll ms n') ≡ promise n'.mpi_rank_global ms (contents n'))
    → observed (poll (m ∷ ms) n) ≡ promise n.mpi_rank_global (m ∷ ms) (contents n)
unfolding poll promise
poll_step n m ms (continues g sent) (n', h, v, c, k, same) e rest =
    let later = subst (λ r. observed (poll ms n') ≡ promise r ms (contents n')) k (rest n' v c) in
    let later' = subst (λ f. observed (poll ms n') ≡ promise n.mpi_rank_global ms f) same later in
    ground (arith, e, h, later')
poll_step n m ms ends (n', h) e rest = ground (arith, e, h)
poll_step n m ms (stops x) h e rest = ground (arith, e, h)

-- From a task that keeps its invariant and can always make room, for every sequence of messages the
-- task sends back exactly the blocks that one map of records would, leaves the loop when that map
-- would, and stops exactly when that map has no answer: at the assertion for a read of a record
-- that was never written, and by MPI_Abort for an unknown message.
pub poll-promise :
    (ms : List Message) (n : Node)
    → Inv n
    → CanOverflow n.config
    → observed (poll ms n) ≡ promise n.mpi_rank_global ms (contents n)
unfolding poll promise
poll-promise [] n v may = refl
poll-promise (m ∷ ms) n v may =
    poll_step n m ms _ (handle_type n m v (msg_type m.code) refl may) refl
      (λ n' v' c. poll-promise ms n' v' (rw c may))
