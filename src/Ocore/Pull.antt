-- ===== src/Ocore/Pull.antt =====
-- `PullData` reads the map `contents` and changes nothing in it.
use grvy.Base.{
  ◌+◌, ◌≡◌, refl, true, Option, none, some, ok, fail, Result, assert_failed, Option-cases, inl, inr,
  arith,
}
use grvy.Base.Map.{find}
use grvy.Ocore.Types.{Block, SparseKey, Datagram, Node, sparse_key}
use grvy.Ocore.Node.{pull_data}
use grvy.Ocore.Views.{KeepsPlace, slots_of_some}
use grvy.Ocore.Invariant.{Inv, contents}
use grvy.Ocore.Invariant.Stored.{contents-eq-none_iff, contents_of_find}
use grvy.Ocore.Touch.{touched, touched-Inv, touched-contents}

-- The task after a successful read.
pub record Kept (n n' : Node) : Type 0 where
  pub inv : Inv n'
  pub same_config : n'.config ≡ n.config
  pub same_rank : n'.mpi_rank_global ≡ n.mpi_rank_global
  pub reads : (j : SparseKey) → contents n' j ≡ contents n j

abbrev count_read : Datagram → Datagram
count_read e = record e { read_count = e.read_count + 1 }

count_read-KeepsPlace : KeepsPlace count_read
count_read-KeepsPlace d = (refl, refl)

pull_some :
    (n : Node) (key : SparseKey) (b : Block) (d : Datagram)
    → contents n key ≡ some b
    → find key n.smap ≡ some d
    → n.initialized ≡ true
    → pull_data n key ≡ ok (b, touched key count_read n.pool n.fp_tmp n)
unfolding pull_data contents
pull_some n key b d h e is_up = ground (arith, slots_of_some key n.smap d e)

-- What a read of a place with the given contents returns.
abbrev pub Answers : Option Block → Node → Result (Block × Node) → Type 0
Answers none n r = r ≡ fail assert_failed
Answers (some b) n r = (n' : Node) × (r ≡ ok (b, n')) × Kept n n'

pull_none :
    (n : Node) (key : SparseKey)
    → Inv n
    → contents n key ≡ none
    → pull_data n key ≡ fail assert_failed
unfolding pull_data
pull_none n key v h =
    let absent = (contents-eq-none_iff n key v.core).0 h in let is_up = v.core.is_up in ground arith

-- On a task that keeps its invariant, a pull of a record that it holds sends back that record, and
-- keeps the invariant and every record; a pull of any other record stops at the assertion.
pub pull_data-Answers :
    (n : Node) (key : SparseKey) → Inv n → Answers (contents n key) n (pull_data n key)
pull_data-Answers n key v = elim (Option-cases (find key n.smap)) [
  | inl e ↦ let h = (contents-eq-none_iff n key v.core).1 e in rw h (pull_none n key v h)
  | inr (d, e) ↦
      let (b, h) = contents_of_find n key d v.core e in
      rw h (
        touched key count_read n.pool n.fp_tmp n,
        pull_some n key b d h e v.core.is_up,
        record {
          inv =
              touched-Inv n key count_read count_read-KeepsPlace n.pool n.fp_tmp refl v.core.filled
                v;
          same_config = refl;
          same_rank = refl;
          reads = touched-contents n key count_read count_read-KeepsPlace;
        },
      )
]
