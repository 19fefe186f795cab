-- ===== src/Ocore/System/Rounds.antt =====
-- The state of a worker task with its Ocore tasks: the invariant, the records as the worker sees
-- them, and what one handled write does to them.
use mathlib.Core.Path.{subst}
use grvy.Base.{
  ℕ, ◌+◌, ◌^◌, ◌≤◌, ◌<◌, ◌≡◌, ap, ◌∙◌, ◌&&◌, Bool, true, false, Option, none, some, ◌==◌,
  if◌then◌else◌, Bool-cases, Option-cases, inl, inr, arith,
}
use grvy.Base.Map.{find, nat_key}
use grvy.Ocore.Types.{Block, Node, SparseKey, sparse_key}
use grvy.Ocore.Slots.{upd}
use grvy.Ocore.Invariant.{Inv, contents}
use grvy.Ocore.Invariant.Free.{CanOverflow}
use grvy.Ocore.Client.{Client, as_header_int}
use grvy.Ocore.System.{System}

abbrev pub IsTask : Client → ℕ → Type 0
IsTask c r = (c.starting_rank ≤ r) × (r < c.starting_rank + c.num_ocore_tasks)

-- The key under which an Ocore task holds a record of this worker.
abbrev pub key_for : Client → ℕ → SparseKey
key_for c o = record { rank = c.mpi_rank_global; sparse_index = as_header_int o }

pub record TaskInv (r : ℕ) (n : Node) : Type 0 where
  pub inv : Inv n
  pub rank : n.mpi_rank_global ≡ r
  pub room : CanOverflow n.config

-- Every Ocore task keeps its invariant and can make room, and each known record has an owner that
-- holds it.
pub record SysInv (s : System) : Type 0 where
  pub enabled : s.client.use_mpi_ocore ≡ true
  pub in_turn : s.client.distrib_rank < s.client.num_ocore_tasks
  pub tasks_inv : (r : ℕ) → IsTask s.client r → TaskInv r (s.tasks r)
  pub owners : (o r : ℕ) → find o s.client.rank_map ≡ some r → IsTask s.client r
  pub holds :
      (o r : ℕ)
      → find o s.client.rank_map ≡ some r
      → (b : Block) × (contents (s.tasks r) (key_for s.client o) ≡ some b)

abbrev pub held_by : System → ℕ → Option ℕ → Option Block
held_by s o none = none
held_by s o (some r) = contents (s.tasks r) (key_for s.client o)

-- The records that the worker task has written, by its own index.
unfoldable pub view : System → ℕ → Option Block
view s o = held_by s o (find o s.client.rank_map)

-- The header carries the index of a record exactly, if it is below 2^31.
pub as_header_int_small : (o : ℕ) → o < 2 ^ 31 → as_header_int o ≡ o
unfolding as_header_int
as_header_int_small o h = ground arith

-- Do p, held by the task of the last argument, and o, held by r, stand under one key?
abbrev pub same_place : ℕ → ℕ → ℕ → Option ℕ → Bool
same_place r o p none = false
same_place r o p (some q) = (q == r) && (as_header_int o == as_header_int p)

-- A client that goes on with the same parameters, and with o owned by r.
pub record Owns (o r : ℕ) (c c' : Client) : Type 0 where
  pub same_use : c'.use_mpi_ocore ≡ c.use_mpi_ocore
  pub same_start : c'.starting_rank ≡ c.starting_rank
  pub same_num : c'.num_ocore_tasks ≡ c.num_ocore_tasks
  pub same_rank : c'.mpi_rank_global ≡ c.mpi_rank_global
  pub same_word : c'.word_size ≡ c.word_size
  pub in_turn : c'.distrib_rank < c.num_ocore_tasks
  pub is_task : IsTask c r
  pub maps : (p : ℕ) → find p c'.rank_map ≡ (if o == p then some r else find p c.rank_map)

abbrev pub settled : System → Client → ℕ → Node → System
settled s c r n = record { client = c; tasks = upd s.tasks r n }

module _ (s : System) (c' : Client) (o r : ℕ) (b : Block) (n : Node)
    (own : Owns o r s.client c') where
  key_moved : (p : ℕ) → key_for c' p ≡ key_for s.client p
  key_moved p = ground (arith, own.same_rank)

  module _ (st : contents n ≡ upd (contents (s.tasks r)) (key_for s.client o) (some b)) where
    at_owner :
        (p : ℕ)
        → contents n (key_for c' p) ≡ (
            if as_header_int o == as_header_int p
            then some b
            else contents (s.tasks r) (key_for s.client p))
    at_owner p = rw (key_moved p, st) (ground arith)

    settled-some :
        (p q : ℕ)
        → find p c'.rank_map ≡ some q
        → held_by (settled s c' r n) p (some q)
          ≡ (if same_place r o p (some q) then some b else view s p)
    unfolding view
    settled-some p q e = elim (Bool-cases (r == q)) [
      | inl h ↦
          let same : r ≡ q = ground arith in
          rw (h, at_owner p) (ground (arith, own.maps p, ap s.tasks same))
      | inr h ↦ rw (h, key_moved p) (ground (arith, own.maps p))
    ]

    -- What the worker sees after a write: the block at every record that stands at the same place.
    pub settled-view :
        (p : ℕ)
        → view (settled s c' r n) p
          ≡ (if same_place r o p (find p c'.rank_map) then some b else view s p)
    unfolding view
    settled-view p = elim (Option-cases (find p c'.rank_map)) [
      | inl e ↦ ground (arith, own.maps p)
      | inr (q, e) ↦ rw e (settled-some p q e)
    ]

    module _ (v : SysInv s) (t : TaskInv r n) where
      settled_task : (q : ℕ) → IsTask s.client q → TaskInv q (upd s.tasks r n q)
      settled_task q is = elim (Bool-cases (r == q)) [
        | inl h ↦ let same : r ≡ q = ground arith in rw h (subst (λ x. TaskInv x n) same t)
        | inr h ↦ rw h (v.tasks_inv q is)
      ]

      settled_owner : (p q : ℕ) → find p c'.rank_map ≡ some q → IsTask s.client q
      settled_owner p q e = elim (Bool-cases (o == p)) [
        | inl h ↦
            let same : r ≡ q = ground (arith, own.maps p) in
            subst (IsTask s.client) same own.is_task
        | inr h ↦ v.owners p q (ground (arith, own.maps p))
      ]

      settled_holds :
          (p q : ℕ)
          → find p c'.rank_map ≡ some q
          → (x : Block) × (held_by (settled s c' r n) p (some q) ≡ some x)
      settled_holds p q e = elim (Bool-cases (same_place r o p (some q))) [
        | inl h ↦ (b, ground (arith, settled-some p q e))
        | inr h ↦
            let old : find p s.client.rank_map ≡ some q = ground (arith, own.maps p) in
            let (x, held) = v.holds p q old in
            (x, settled-some p q e ∙ rw h (unfold view in rw old held))
      ]

      pub settled-SysInv : SysInv (settled s c' r n)
      settled-SysInv = record {
        enabled = own.same_use ∙ v.enabled;
        in_turn = rw own.same_num own.in_turn;
        tasks_inv = λ q is. settled_task q (moved q is);
        owners = λ p q e. back q (settled_owner p q e);
        holds = settled_holds;
      }
        where
          moved : (q : ℕ) → IsTask c' q → IsTask s.client q
          moved q is = omega (arith, own.same_start, own.same_num)

          back : (q : ℕ) → IsTask s.client q → IsTask c' q
          back q is = omega (arith, own.same_start, own.same_num)
