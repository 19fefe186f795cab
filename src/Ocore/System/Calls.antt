-- ===== src/Ocore/System/Calls.antt =====
-- `Write` and `Read` of a worker task, through its messages and the Ocore tasks.
use mathlib.Core.Path.{subst}
use grvy.Base.{
  ℕ, ◌+◌, ◌≡◌, ◌⊎◌, refl, sym, ◌∙◌, true, false, none, some, List, [], ok, ◌==◌, if◌then◌else◌,
  Bool-cases, Option-cases, inl, inr, arith,
}
use grvy.Base.Map.{find, nat_key}
use grvy.Base.Map.Laws.{find-insert}
use grvy.Ocore.Types.{Block, Node, ocore_write_new, ocore_update_old, sparse_key}
use grvy.Ocore.Slots.{upd}
use grvy.Ocore.Invariant.{contents}
use grvy.Ocore.Poll.{Message, handle, msg_code, msg_type}
use grvy.Ocore.Refinement.{Refines, handle_type, key_of, continues}
use grvy.Ocore.Client.{Client, sends, write, header, assign_ownership, write_to_pool}
use grvy.Ocore.System.{System, deliver, sys_write}
use grvy.Ocore.System.Rounds.{
  SysInv, TaskInv, Owns, settled, settled-view, settled-SysInv, view, key_for, same_place,
}

abbrev IsWrite : Message → Type 0
IsWrite m = (msg_type m.code ≡ some ocore_write_new) ⊎ (msg_type m.code ≡ some ocore_update_old)

-- The message that `Write` sends.
record Writes (c : Client) (o r : ℕ) (b : Block) (m : Message) : Type 0 where
  dest : m.destination ≡ r
  key : key_of m ≡ key_for c o
  load : m.payload ≡ b
  kind : IsWrite m

pub maps_known :
    (o r : ℕ) (m : List (ℕ × ℕ))
    → find o m ≡ some r
    → (p : ℕ) → find p m ≡ (if o == p then some r else find p m)
maps_known o r m e p = elim (Bool-cases (o == p)) [
  | inl h ↦ let same : o ≡ p = ground arith in rw h (subst (λ x. find x m ≡ some r) same e)
  | inr h ↦ rw h
]

write_known :
    (s : System) (size_of o r : ℕ) (b : Block)
    → SysInv s
    → size_of ≡ s.client.word_size
    → find o s.client.rank_map ≡ some r
    → (m : Message) × (write s.client size_of o b ≡ ok (sends m, s.client))
      × Writes s.client o r b m
      × Owns o r s.client s.client
unfolding write write_to_pool header msg_code msg_type
write_known s size_of o r b v size e =
    let on = v.enabled in
    (
      write_to_pool s.client r false o b,
      ground arith,
      record { dest = refl; key = refl; load = refl; kind = inr refl },
      record {
        same_use = refl;
        same_start = refl;
        same_num = refl;
        same_rank = refl;
        same_word = refl;
        in_turn = v.in_turn;
        is_task = v.owners o r e;
        maps = maps_known o r s.client.rank_map e;
      },
    )

write_fresh :
    (s : System) (size_of o : ℕ) (b : Block)
    → SysInv s
    → size_of ≡ s.client.word_size
    → find o s.client.rank_map ≡ none
    → (r : ℕ) × (c' : Client) × (m : Message) × (write s.client size_of o b ≡ ok (sends m, c'))
      × Writes s.client o r b m
      × Owns o r s.client c'
unfolding write write_to_pool header msg_code msg_type assign_ownership
write_fresh s size_of o b v size e =
    let on = v.enabled in
    let r = s.client.distrib_rank + s.client.starting_rank in
    let c' = (assign_ownership s.client o).1 in
    (
      r,
      c',
      write_to_pool c' r true o b,
      ground arith,
      record { dest = refl; key = refl; load = refl; kind = inl refl },
      record {
        same_use = refl;
        same_start = refl;
        same_num = refl;
        same_rank = refl;
        same_word = refl;
        in_turn = let turn = v.in_turn in ground arith;
        is_task = omega (arith, v.in_turn);
        maps = λ p. find-insert o p r s.client.rank_map;
      },
    )

handle_write :
    (n : Node) (m : Message)
    → TaskInv m.destination n
    → IsWrite m
    → Refines n (handle n m) (continues (upd (contents n) (key_of m) (some m.payload)) [])
handle_write n m t kind =
    let here : (n.mpi_rank_global == m.destination) ≡ true = ground (arith, t.rank) in
    elim kind [
      | inl e ↦ rw here at (handle_type n m t.inv (some ocore_write_new) e t.room)
      | inr e ↦ rw here at (handle_type n m t.inv (some ocore_update_old) e t.room)
    ]

deliver_write :
    (s : System) (m : Message)
    → TaskInv m.destination (s.tasks m.destination)
    → IsWrite m
    → (n : Node) × (deliver s m ≡ ok ([], settled s s.client m.destination n))
      × TaskInv m.destination n
      × (contents n ≡ upd (contents (s.tasks m.destination)) (key_of m) (some m.payload))
unfolding deliver
deliver_write s m t kind =
    let (n, h, inv, config, rank, same) = handle_write (s.tasks m.destination) m t kind in
    (n, rw h, record { inv = inv; rank = rank ∙ t.rank; room = rw config t.room }, same)

-- A write as the worker sees it.
pub record SysWrote (s : System) (o r : ℕ) (b : Block) (s' : System) : Type 0 where
  pub inv : SysInv s'
  pub maps :
      (p : ℕ) → find p s'.client.rank_map ≡ (if o == p then some r else find p s.client.rank_map)
  pub same_word : s'.client.word_size ≡ s.client.word_size
  pub same_start : s'.client.starting_rank ≡ s.client.starting_rank
  pub same_num : s'.client.num_ocore_tasks ≡ s.client.num_ocore_tasks
  pub sees :
      (p : ℕ)
      → view s' p ≡ (if same_place r o p (find p s'.client.rank_map) then some b else view s p)

sys_write_run :
    (s s' : System) (size_of o : ℕ) (b : Block) (c' : Client) (m : Message)
    → write s.client size_of o b ≡ ok (sends m, c')
    → deliver (record s { client = c' }) m ≡ ok ([], s')
    → sys_write s size_of o b ≡ ok (0, s')
unfolding sys_write
sys_write_run s s' size_of o b c' m e h = ground (arith, e, h)

finish_write :
    (s : System) (size_of o r : ℕ) (b : Block) (c' : Client) (m : Message)
    → SysInv s
    → write s.client size_of o b ≡ ok (sends m, c')
    → Writes s.client o r b m
    → Owns o r s.client c'
    → (s' : System) × (sys_write s size_of o b ≡ ok (0, s')) × SysWrote s o r b s'
finish_write s size_of o r b c' m v e w own =
    let at_task = subst (λ x. TaskInv x (s.tasks x)) (sym w.dest) (v.tasks_inv r own.is_task) in
    let (n, h, t, same) = deliver_write (record s { client = c' }) m at_task w.kind in
    let st : contents n ≡ upd (contents (s.tasks r)) (key_for s.client o) (some b) =
      same ∙ placed w in
    let t' = subst (λ x. TaskInv x n) w.dest t in
    let done = sys_write_run s (settled s c' m.destination n) size_of o b c' m e h in
    (
      settled s c' r n,
      subst (λ x. sys_write s size_of o b ≡ ok (0, settled s c' x n)) w.dest done,
      record {
        inv = settled-SysInv s c' o r b n own st v t';
        maps = own.maps;
        same_word = own.same_word;
        same_start = own.same_start;
        same_num = own.same_num;
        sees = settled-view s c' o r b n own st;
      },
    )
  where
    placed :
        Writes s.client o r b m
        → upd (contents (s.tasks m.destination)) (key_of m) (some m.payload)
          ≡ upd (contents (s.tasks r)) (key_for s.client o) (some b)
    placed x = cc (x.dest, x.key, x.load)

-- A write of words of the right size succeeds. The worker then sees the block at the record that it
-- wrote, and at each record of the same owner whose index is the same in the 32 bits of the header.
pub sys_write-SysWrote :
    (s : System) (size_of o : ℕ) (b : Block)
    → SysInv s
    → size_of ≡ s.client.word_size
    → (r : ℕ) × (s' : System) × (sys_write s size_of o b ≡ ok (0, s')) × SysWrote s o r b s'
sys_write-SysWrote s size_of o b v size = elim (Option-cases (find o s.client.rank_map)) [
  | inl e ↦
      let (r, c', m, sent, w, own) = write_fresh s size_of o b v size e in
      let (s', done, wrote) = finish_write s size_of o r b c' m v sent w own in (r, s', done, wrote)
  | inr (r, e) ↦
      let (m, sent, w, own) = write_known s size_of o r b v size e in
      let (s', done, wrote) = finish_write s size_of o r b s.client m v sent w own in
      (r, s', done, wrote)
]
