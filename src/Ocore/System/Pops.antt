-- ===== src/Ocore/System/Pops.antt =====
-- `PopRecord` of src/grvy_ramdisk.cpp with the answers of the Ocore tasks, until no record is left.
use mathlib.Core.Path.{subst}
use grvy.Base.{
  ℕ, zero, suc, ◌<◌, ◌≡◌, refl, sym, ap, ◌∙◌, Option, none, some, List, [], ◌∷◌, All, Result, ok,
  fail, bad_access, aborted, assert_failed, ◌>>=◌, arith, inl, inr, Option-cases,
}
use grvy.Base.Map.{find, erase, nat_key}
use grvy.Base.Map.Laws.{find-erase_ne}
use grvy.Ocore.Types.{Block}
use grvy.Ocore.Client.{num_active}
use grvy.Ocore.Pop.{IsAscending, find-lower}
use grvy.Ocore.System.{System, sys_read}
use grvy.Ocore.System.Rounds.{SysInv, view}
use grvy.Ocore.System.Reads.{read_known}

-- The object without some of its records.
abbrev pub left_with : System → List (ℕ × ℕ) → System
left_with s m = record s { client = record s.client { rank_map = m } }

-- `PopRecord` up to its return statement: the index that is read, the block, and the object without
-- the record.
unfoldable pub pop_data : System → Result (ℕ × Block × System)
pop_data s = elim s.client.rank_map [
  | [] ↦ fail aborted
  | (offset, owner) ∷ rest ↦ sys_read s offset >>= λ r. elim r.0 [
    | none ↦ fail assert_failed
    | some b ↦ ok (offset, b, left_with r.1 (erase offset r.1.client.rank_map))
  ]
]

-- `PopRecord`: the return statement reads the key of the map's entry that is erased.
unfoldable pub sys_pop : System → Result (ℕ × Block × System)
unfolding pop_data
sys_pop s = pop_data s >>= λ r. fail bad_access

-- The part before the return statement, n times.
abbrev pub pops : ℕ → System → Result (List (ℕ × Block) × System)
pops zero s = ok ([], s)
pops (suc n) s = do
  (offset, b, s') ← pop_data s
  (more, s'') ← pops n s'
  ok ((offset, b) ∷ more, s'')

-- The records with the blocks that the worker sees.
abbrev pub seen : System → List (ℕ × ℕ) → List (ℕ × Option Block)
seen s [] = []
seen s ((o, r) ∷ m) = (o, view s o) ∷ seen s m

abbrev pub as_seen : List (ℕ × Block) → List (ℕ × Option Block)
as_seen [] = []
as_seen ((o, b) ∷ l) = (o, some b) ∷ as_seen l

seen_same :
    (s t : System) (o : ℕ) (m : List (ℕ × ℕ))
    → ((p : ℕ) → o < p → view t p ≡ view s p)
    → All (λ e. o < e.0) m
    → seen t m ≡ seen s m
seen_same s t o [] h a = refl
seen_same s t o ((p, q) ∷ m) h (b, a) = let same = seen_same s t o m h a in cc (h p b, same)

left_with-SysInv :
    (s : System) (m : List (ℕ × ℕ))
    → SysInv s
    → ((p q : ℕ) → find p m ≡ some q → find p s.client.rank_map ≡ some q)
    → SysInv (left_with s m)
left_with-SysInv s m v sub = record {
  enabled = v.enabled;
  in_turn = v.in_turn;
  tasks_inv = v.tasks_inv;
  owners = λ p q e. v.owners p q (sub p q e);
  holds = λ p q e. v.holds p q (sub p q e);
}

left_with-view :
    (s : System) (m : List (ℕ × ℕ)) (p : ℕ)
    → find p m ≡ find p s.client.rank_map
    → view (left_with s m) p ≡ view s p
unfolding view
left_with-view s m p e = elim (Option-cases (find p m)) [
  | inl h ↦ ground (arith, e, h)
  | inr (q, h) ↦ ground (arith, e, h)
]

find_rest :
    (o r p q : ℕ) (rest m : List (ℕ × ℕ))
    → m ≡ (o, r) ∷ rest
    → All (λ e. o < e.0) rest
    → find p rest ≡ some q
    → find p m ≡ some q
unfolding find
find_rest o r p q rest m e above h = ground (arith, e, h, find-lower o p q rest above h)

-- One record: the first, with its block; the others are seen as before.
record Popped (s : System) (o : ℕ) (rest : List (ℕ × ℕ)) (b : Block) (s' : System) : Type 0 where
  run : pop_data s ≡ ok (o, b, s')
  is_seen : view s o ≡ some b
  inv : SysInv s'
  left : s'.client.rank_map ≡ rest
  sees : (p : ℕ) → o < p → view s' p ≡ view s p

pop_data-Popped :
    (s : System) (o r : ℕ) (rest : List (ℕ × ℕ))
    → SysInv s
    → s.client.rank_map ≡ (o, r) ∷ rest
    → All (λ e. o < e.0) rest
    → (b : Block) × (s' : System) × Popped s o rest b s'
unfolding pop_data find erase view
pop_data-Popped s o r rest v e above =
    let found : find o s.client.rank_map ≡ some r = ground (arith, e) in
    let (b, held) = v.holds o r found in
    let (s1, read, kept) = read_known s o r b v found held in
    let map1 : s1.client.rank_map ≡ (o, r) ∷ rest = ap (λ c. c.rank_map) kept.same_client ∙ e in
    let gone : erase o s1.client.rank_map ≡ rest = ground (arith, map1) in
    (
      b,
      left_with s1 (erase o s1.client.rank_map),
      record {
        run = ground (arith, e, read);
        is_seen = ground (arith, found, held);
        inv = left_with-SysInv s1 _ kept.inv (λ p q h.
            find_rest o r p q rest s1.client.rank_map map1 above (ap (find p) (sym gone) ∙ h));
        left = gone;
        sees = λ p h.
            left_with-view s1 _ p (find-erase_ne o p s1.client.rank_map (λ q. omega arith))
            ∙ kept.sees p;
      },
    )

pops_all :
    (m : List (ℕ × ℕ)) (s : System)
    → SysInv s
    → s.client.rank_map ≡ m
    → IsAscending m
    → (l : List (ℕ × Block)) × (s' : System) × (pops (num_active m) s ≡ ok (l, s'))
      × (as_seen l ≡ seen s m)
      × (s'.client.rank_map ≡ [])
unfolding num_active
pops_all [] s v e a = ([], s, refl, refl, e)
pops_all ((o, r) ∷ rest) s v e (above, a) =
    let (b, s1, one) = pop_data-Popped s o r rest v e above in
    let (l, s2, run, same, none_left) = pops_all rest s1 one.inv one.left a in
    let first = one.run in
    let shown = one.is_seen in
    let others = seen_same s s1 o rest one.sees above in
    ((o, b) ∷ l, s2, ground (arith, first, run), cc (shown, same, others), none_left)

-- Taking as many records as there are reads each record once, in the order of their indices, with
-- the block that the worker sees, and leaves none.
pub pops-seen :
    (s : System)
    → SysInv s
    → IsAscending s.client.rank_map
    → (l : List (ℕ × Block)) × (s' : System) × (pops (num_active s.client.rank_map) s ≡ ok (l, s'))
      × (as_seen l ≡ seen s s.client.rank_map)
      × (s'.client.rank_map ≡ [])
pops-seen s v a = pops_all s.client.rank_map s v refl a

-- PopRecord ends in that access whenever there is a record.
pub sys_pop-bad_access :
    (s : System) (o r : ℕ) (rest : List (ℕ × ℕ))
    → SysInv s
    → IsAscending s.client.rank_map
    → s.client.rank_map ≡ (o, r) ∷ rest
    → sys_pop s ≡ fail bad_access
unfolding sys_pop
sys_pop-bad_access s o r rest v a e =
    let (b, s', one) = pop_data-Popped s o r rest v e (subst IsAscending e a).0 in
    let run = one.run in rw run refl
