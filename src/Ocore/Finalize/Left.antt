-- ===== src/Ocore/Finalize/Left.antt =====
-- Every Ocore task leaves its loop when the master task of src/grvy_ramdisk.cpp finalizes.
use grvy.Base.{
  ℕ, zero, suc, ◌+◌, ◌-◌, ◌≤◌, ◌<◌, true, false, List, [], ◌∷◌, ◌++◌, ◌==◌, ◌&&◌, leb, ltb, ◌≡◌,
  refl, if◌then◌else◌, ok, arith, inl, inr, Result-cases,
}
use grvy.Ocore.Types.{Block, Node}
use grvy.Ocore.Invariant.{Inv, contents}
use grvy.Ocore.Invariant.Free.{CanOverflow}
use grvy.Ocore.Poll.{Message, goes_on, exits, handle, poll, msg_code, msg_type}
use grvy.Ocore.Refinement.{promise, poll-promise}
use grvy.Ocore.Finalize.{exit_message, send_exits, finalize_sends}

-- The messages to a rank, in their order.
abbrev pub received_by : ℕ → List (ℕ × Message) → List Message
received_by rank [] = []
received_by rank ((to, m) ∷ sent) =
    let rest = received_by rank sent in if to == rank then m ∷ rest else rest

received_by-send_exits :
    (m : Message) (rank n i : ℕ)
    → received_by rank (send_exits m i n) ≡ (if leb i rank && ltb rank (i + n) then m ∷ [] else [])
unfolding send_exits
received_by-send_exits m rank zero i = ground arith
received_by-send_exits m rank (suc n) i = ground (arith, received_by-send_exits m rank n (i + 1))

handle_exit : (b : ℕ) (n : Node) → handle n (exit_message b) ≡ ok (exits n)
unfolding handle exit_message msg_type msg_code
handle_exit b n = refl

-- The exit message ends a loop that the messages before it have not ended.
poll_exit :
    (b : ℕ) (ms later : List Message) (n n' : Node) (sent : List (ℕ × Block))
    → poll ms n ≡ ok (n', sent, false)
    → poll (ms ++ exit_message b ∷ later) n ≡ ok (n', sent, true)
unfolding poll
poll_exit b [] later n n' sent e = ground (arith, e, handle_exit b n)
poll_exit b (m ∷ ms) later n n' sent e = elim (Result-cases (handle n m)) [
  | inr (f, h) ↦ absurd (ground (arith, e, h))
  | inl (exits n1, h) ↦ absurd (ground (arith, e, h))
  | inl (goes_on n1 out, h) ↦ elim (Result-cases (poll ms n1)) [
    | inr (f, h2) ↦ absurd (ground (arith, e, h, h2))
    | inl ((n2, more, true), h2) ↦ absurd (ground (arith, e, h, h2))
    | inl ((n2, more, false), h2) ↦ ground (arith, e, h, h2, poll_exit b ms later n1 n2 more h2)
  ]
]

-- When the master task finalizes, every Ocore task that keeps its invariant, can always make room and
-- has been sent messages that one map of records answers without an exit, sends back those answers and
-- leaves its loop, whatever else is sent to it later; no other task gets a message.
pub poll-finalize_sends :
    (b starting_rank nprocs rank : ℕ) (ms later : List Message) (n : Node) (sent : List (ℕ × Block))
    → Inv n
    → CanOverflow n.config
    → promise n.mpi_rank_global ms (contents n) ≡ ok (sent, false)
    → let exits_to = received_by rank (finalize_sends true true b starting_rank nprocs) in
      (starting_rank ≤ rank
        → rank < nprocs
        → (n' : Node) × (poll (ms ++ (exits_to ++ later)) n ≡ ok (n', sent, true)))
      × (rank < starting_rank → exits_to ≡ [])
unfolding finalize_sends
poll-finalize_sends b sr nprocs rank ms later n sent v may p =
    let to_rank = received_by-send_exits (exit_message b) rank (nprocs - sr) sr in
    let seen = poll-promise ms n v may in
    (
      λ h1 h2. elim (Result-cases (poll ms n)) [
        | inr (f, e) ↦ absurd (ground (arith, seen, e, p))
        | inl ((n', out, done), e) ↦
            (n', ground (arith, seen, e, p, h1, h2, to_rank, poll_exit b ms later n n' sent))
      ],
      λ h. ground (arith, to_rank),
    )
