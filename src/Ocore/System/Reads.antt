-- ===== src/Ocore/System/Reads.antt =====
-- `Read` of a worker task, and what a worker can rely on: its records are its own last writes, as
-- long as the header carries their indices.
use mathlib.Core.Path.{subst, fun_ext}
use grvy.Base.{
  ℕ, ◌+◌, ◌^◌, ◌%◌, ◌<◌, ◌≡◌, refl, sym, ◌∙◌, true, Option, none, some, [], ◌∷◌, ok, fail, aborted,
  ◌==◌, if◌then◌else◌, Bool-cases, Option-cases, inl, inr, arith, replicate,
}
use grvy.Base.Map.{find, nat_key}
use grvy.Ocore.Types.{Block, Node, SparseKey, ocore_read, sparse_key, key_beq_iff, key_beq}
use grvy.Ocore.Slots.{upd}
use grvy.Ocore.Invariant.{contents}
use grvy.Ocore.Poll.{Message, handle, msg_code, msg_type}
use grvy.Ocore.Refinement.{Refines, handle_type, key_of, continues}
use grvy.Ocore.Client.{read, header, as_header_int}
use grvy.Ocore.System.{System, deliver, sys_write, sys_read}
use grvy.Ocore.System.Rounds.{
  SysInv, TaskInv, Owns, settled, settled-view, settled-SysInv, view, key_for, same_place,
  as_header_int_small,
}
use grvy.Ocore.System.Calls.{SysWrote, sys_write-SysWrote, maps_known}

upd_self :
    (f : SparseKey → Option Block) (k : SparseKey) (b : Block) → f k ≡ some b → upd f k (some b) ≡ f
upd_self f k b e = fun_ext λ j. elim (Bool-cases (key_beq k j)) [
  | inl h ↦ rw h (sym (subst (λ x. f x ≡ some b) ((key_beq_iff k j).0 h) e))
  | inr h ↦ rw h
]

-- A task that answers a read.
handle_read :
    (n : Node) (m : Message) (b : Block)
    → TaskInv m.destination n
    → msg_type m.code ≡ some ocore_read
    → contents n (key_of m) ≡ some b
    → Refines n (handle n m) (continues (contents n) ((m.sending_rank, b) ∷ []))
handle_read n m b t e held =
    let here : (n.mpi_rank_global == m.destination) ≡ true = ground (arith, t.rank) in
    rw held at (rw here at (handle_type n m t.inv (some ocore_read) e t.room))

sys_read_run :
    (s s' : System) (o r : ℕ) (b : Block)
    → s.client.use_mpi_ocore ≡ true
    → find o s.client.rank_map ≡ some r
    → deliver s (header s.client ocore_read r o []) ≡ ok ((s.client.mpi_rank_global, b) ∷ [], s')
    → sys_read s o ≡ ok (some b, s')
unfolding sys_read read
sys_read_run s s' o r b on e h = ground (arith, e, h)

-- What a read leaves as it was.
pub record SysKept (s s' : System) : Type 0 where
  pub inv : SysInv s'
  pub same_client : s'.client ≡ s.client
  pub sees : (p : ℕ) → view s' p ≡ view s p

same_place-view :
    (s : System) (o r : ℕ) (b : Block) (p : ℕ)
    → contents (s.tasks r) (key_for s.client o) ≡ some b
    → (if same_place r o p (find p s.client.rank_map) then some b else view s p) ≡ view s p
unfolding view
same_place-view s o r b p held = elim (Option-cases (find p s.client.rank_map)) [
  | inl e ↦ rw e
  | inr (q, e) ↦ rw e (elim (Bool-cases (same_place r o p (some q))) [
    | inl h ↦
        let owner : r ≡ q = ground arith in
        let index : as_header_int o ≡ as_header_int p = ground arith in
        rw h (sym (cc (held, owner, index)))
    | inr h ↦ rw h
  ])
]

pub read_known :
    (s : System) (o r : ℕ) (b : Block)
    → SysInv s
    → find o s.client.rank_map ≡ some r
    → contents (s.tasks r) (key_for s.client o) ≡ some b
    → (s' : System) × (sys_read s o ≡ ok (some b, s')) × SysKept s s'
unfolding deliver header msg_code msg_type
read_known s o r b v e held =
    let c = s.client in
    let t = v.tasks_inv r (v.owners o r e) in
    let (n, h, inv, config, rank, same) =
      handle_read (s.tasks r) (header c ocore_read r o []) b t refl held in
    let st : contents n ≡ upd (contents (s.tasks r)) (key_for c o) (some b) =
      same ∙ sym (upd_self (contents (s.tasks r)) (key_for c o) b held) in
    let own : Owns o r c c = record {
      same_use = refl;
      same_start = refl;
      same_num = refl;
      same_rank = refl;
      same_word = refl;
      in_turn = v.in_turn;
      is_task = v.owners o r e;
      maps = maps_known o r c.rank_map e;
    } in
    (
      settled s c r n,
      sys_read_run s _ o r b v.enabled e (rw h),
      record {
        inv =
            settled-SysInv s c o r b n own st v
              (record { inv = inv; rank = rank ∙ t.rank; room = rw config t.room });
        same_client = refl;
        sees = λ p. settled-view s c o r b n own st p ∙ same_place-view s o r b p held;
      },
    )

-- What `Read` answers for a record that the worker sees as given.
abbrev pub ReadAnswers : System → ℕ → Option Block → Type 0
ReadAnswers s o (some b) = (s' : System) × (sys_read s o ≡ ok (some b, s')) × SysKept s s'
ReadAnswers s o none = sys_read s o ≡ (
    if s.client.allow_empty_records
    then ok (
      some (replicate s.client.blocksize 0),
      record s { client = record s.client { num_empty_reads = s.client.num_empty_reads + 1 } },
    )
    else fail aborted)

read_unknown :
    (s : System) (o : ℕ)
    → s.client.use_mpi_ocore ≡ true
    → find o s.client.rank_map ≡ none
    → ReadAnswers s o none
unfolding sys_read read
read_unknown s o on e = ground (arith, on, e)

-- A read returns the block that the worker sees at the record and changes nothing that it sees. Of
-- a record that was never written it returns zeros and counts the read where empty records are
-- allowed, and aborts where they are not.
pub sys_read-ReadAnswers : (s : System) (o : ℕ) → SysInv s → ReadAnswers s o (view s o)
unfolding view
sys_read-ReadAnswers s o v = elim (Option-cases (find o s.client.rank_map)) [
  | inl e ↦ rw e (read_unknown s o v.enabled e)
  | inr (r, e) ↦ let (b, held) = v.holds o r e in rw (e, held) (read_known s o r b v e held)
]

-- The known records have indices that fit the header.
abbrev pub Small : System → Type 0
Small s = (o r : ℕ) → find o s.client.rank_map ≡ some r → o < 2 ^ 31

module _ (s : System) (o r : ℕ) (b : Block) (s' : System) (w : SysWrote s o r b s') where
  Small-write : Small s → o < 2 ^ 31 → Small s'
  Small-write small fits p q e = elim (Bool-cases (o == p)) [
    | inl h ↦ ground arith
    | inr h ↦ small p q (ground (arith, w.maps p))
  ]

  same_place-Small :
      Small s → o < 2 ^ 31 → (p : ℕ) → same_place r o p (find p s'.client.rank_map) ≡ (o == p)
  same_place-Small small fits p = elim (Option-cases (find p s'.client.rank_map)) [
    | inl e ↦ ground (arith, w.maps p)
    | inr (q, e) ↦ ground (
      arith,
      w.maps p,
      as_header_int_small o fits,
      as_header_int_small p (Small-write small fits p q e),
    )
  ]

-- While all indices are below 2^31, a write of words of the right size changes what the worker sees
-- at the record that it names, and at no other, and the indices stay below 2^31.
pub sys_write-view :
    (s : System) (size_of o : ℕ) (b : Block)
    → SysInv s
    → Small s
    → size_of ≡ s.client.word_size
    → o < 2 ^ 31
    → (s' : System) × (sys_write s size_of o b ≡ ok (0, s'))
      × SysInv s'
      × Small s'
      × ((p : ℕ) → view s' p ≡ (if o == p then some b else view s p))
sys_write-view s size_of o b v small size fits =
    let (r, s', done, w) = sys_write-SysWrote s size_of o b v size in
    (
      s',
      done,
      w.inv,
      Small-write s o r b s' w small fits,
      λ p. w.sees p ∙ rw (same_place-Small s o r b s' w small fits p) refl,
    )

same_index : (o p : ℕ) → o % 2 ^ 32 ≡ p % 2 ^ 32 → as_header_int o ≡ as_header_int p
unfolding as_header_int
same_index o p e = rw e

-- With one Ocore task, what was written at p after it was written at o stands at o too.
collide :
    (s1 s2 : System) (o p r1 r2 : ℕ) (b' : Block)
    → SysInv s1
    → s1.client.num_ocore_tasks ≡ 1
    → find o s1.client.rank_map ≡ some r1
    → as_header_int o ≡ as_header_int p
    → SysWrote s1 p r2 b' s2
    → view s2 o ≡ some b'
collide s1 s2 o p r1 r2 b' v one e wrap w =
    let first = v.owners o r1 e in
    let here : find p s2.client.rank_map ≡ some r2 = ground (arith, w.maps p) in
    let second = w.inv.owners p r2 here in
    let owner : r1 ≡ r2 = omega (arith, w.same_start, w.same_num) in
    ground (arith, w.sees o, w.maps o)

-- With one Ocore task, two records whose indices differ by a multiple of 2^32 are one record: after
-- a write at o and then one at p, a read at o returns the block that was written at p.
pub offset_collision :
    (s : System) (size_of o p : ℕ) (b b' : Block)
    → SysInv s
    → size_of ≡ s.client.word_size
    → s.client.num_ocore_tasks ≡ 1
    → o % 2 ^ 32 ≡ p % 2 ^ 32
    → (s1 : System) × (s2 : System) × (s3 : System) × (sys_write s size_of o b ≡ ok (0, s1))
      × (sys_write s1 size_of p b' ≡ ok (0, s2))
      × (sys_read s2 o ≡ ok (some b', s3))
offset_collision s size_of o p b b' v size one wrap =
    let (r1, s1, d1, w1) = sys_write-SysWrote s size_of o b v size in
    let (r2, s2, d2, w2) = sys_write-SysWrote s1 size_of p b' w1.inv (size ∙ sym w1.same_word) in
    let known : find o s1.client.rank_map ≡ some r1 = ground (arith, w1.maps o) in
    let seen =
      collide s1 s2 o p r1 r2 b' w1.inv (w1.same_num ∙ one) known (same_index o p wrap) w2 in
    let (s3, d3, kept) = subst (ReadAnswers s2 o) seen (sys_read-ReadAnswers s2 o w2.inv) in
    (s1, s2, s3, d1, d2, d3)
