-- ===== src/Ocore/System/Drain.antt =====
-- Programs of a worker task of src/grvy_ramdisk.cpp that write records and then pop them all.
use grvy.Base.{
  ℕ, ◌^◌, ◌<◌, ◌≡◌, refl, ap, ◌∙◌, Option, none, some, List, [], ◌∷◌, All, ◌==◌, Result, ok, fail,
  bad_access, ◌>>=◌, if◌then◌else◌, arith, inl, inr, Option-cases, Result-cases, ==_cases,
}
use grvy.Base.Map.{find, nat_key}
use grvy.Ocore.Types.{Block}
use grvy.Ocore.Poll.{Message, handle, goes_on, exits}
use grvy.Ocore.Client.{Client, Call, refused, sends, answered, write, num_active}
use grvy.Ocore.Pop.{IsAscending, write-known}
use grvy.Ocore.System.{System, deliver, sys_write}
use grvy.Ocore.System.Rounds.{SysInv, view}
use grvy.Ocore.System.Reads.{Small, sys_write-view}
use grvy.Ocore.System.Pops.{sys_pop, pops, seen, as_seen, pops-seen, sys_pop-bad_access}

-- Writes of words of the right size, one after another.
abbrev pub writes : List (ℕ × Block) → System → Result System
writes [] s = ok s
writes ((o, b) ∷ ws) s = sys_write s s.client.word_size o b >>= λ r. writes ws r.1

-- The block that was written last at an index, or what was there before.
abbrev pub last_of : List (ℕ × Block) → ℕ → Option Block → Option Block
last_of [] p x = x
last_of ((o, b) ∷ ws) p x = last_of ws p (if o == p then some b else x)

-- Indices in ascending order.
abbrev pub InOrder : List (ℕ × Block) → Type 0
InOrder [] = Unit
InOrder ((o, b) ∷ l) = All (λ e. o < e.0) l × InOrder l

deliver-client :
    (s s' : System) (m : Message) (sent : List (ℕ × Block))
    → deliver s m ≡ ok (sent, s')
    → s'.client ≡ s.client
unfolding deliver
deliver-client s s' m sent e = elim (Result-cases (handle (s.tasks m.destination) m)) [
  | inr (f, h) ↦ absurd (ground (arith, e, h))
  | inl (goes_on n out, h) ↦ ground (arith, e, h)
  | inl (exits n, h) ↦ ground (arith, e, h)
]

write_client :
    (s s' : System) (o code : ℕ) (b : Block) (call : Call) (c' : Client)
    → write s.client s.client.word_size o b ≡ ok (call, c')
    → sys_write s s.client.word_size o b ≡ ok (code, s')
    → s'.client ≡ c'
unfolding sys_write
write_client s s' o code b refused c' w e = ground (arith, w, e)
write_client s s' o code b (answered x) c' w e = ground (arith, w, e)
write_client s s' o code b (sends m) c' w e =
    elim (Result-cases (deliver (record s { client = c' }) m)) [
      | inr (f, h) ↦ absurd (ground (arith, w, e, h))
      | inl ((sent, s1), h) ↦
          deliver-client (record s { client = c' }) s' m sent (ground (arith, w, e, h))
    ]

-- After the writes.
record Written (ws : List (ℕ × Block)) (s s' : System) : Type 0 where
  run : writes ws s ≡ ok s'
  inv : SysInv s'
  in_order : IsAscending s'.client.rank_map
  sees : (p : ℕ) → view s' p ≡ last_of ws p (view s p)

writes-Written :
    (ws : List (ℕ × Block)) (s : System)
    → SysInv s
    → Small s
    → IsAscending s.client.rank_map
    → All (λ e. e.0 < 2 ^ 31) ws
    → (s' : System) × Written ws s s'
writes-Written [] s v small a f =
    (s, record { run = refl; inv = v; in_order = a; sees = λ p. refl })
writes-Written ((o, b) ∷ ws) s v small a (fits, f) =
    let (s1, run1, v1, small1, sees1) = sys_write-view s s.client.word_size o b v small refl fits in
    let ((call, c'), sent, on, a', _) = write-known s.client o b v.enabled a in
    let same = write_client s s1 o 0 b call c' sent run1 in
    let (s2, w) = writes-Written ws s1 v1 small1 (rw same a') f in
    (
      s2,
      record {
        run = rw run1 w.run;
        inv = w.inv;
        in_order = w.in_order;
        sees = λ p. w.sees p ∙ ap (last_of ws p) (sees1 p);
      },
    )

find-as_seen :
    (s : System) (o : ℕ) (l : List (ℕ × Block)) (m : List (ℕ × ℕ))
    → as_seen l ≡ seen s m
    → find o l ≡ elim (find o m) [ none ↦ none | some r ↦ view s o ]
unfolding find
find-as_seen s o [] [] e = refl
find-as_seen s o [] ((p, q) ∷ m) e = absurd (cc e)
find-as_seen s o ((i, b) ∷ l) [] e = absurd (cc e)
find-as_seen s o ((i, b) ∷ l) ((p, q) ∷ m) e =
    let index : i ≡ p = cc e in
    let shown : view s p ≡ some b = cc e in
    let rest : as_seen l ≡ seen s m = cc e in
    let later = find-as_seen s o l m rest in
    elim (==_cases i o) [
      | inl h ↦ let here : view s o ≡ some b = cc in ground (arith, index, h, here)
      | inr h ↦ ground (arith, index, h, later)
    ]

All-as_seen :
    (s : System) (j : ℕ) (l : List (ℕ × Block)) (m : List (ℕ × ℕ))
    → as_seen l ≡ seen s m
    → All (λ e. j < e.0) m
    → All (λ e. j < e.0) l
All-as_seen s j [] m e a = tt
All-as_seen s j ((i, b) ∷ l) [] e a = absurd (cc e)
All-as_seen s j ((i, b) ∷ l) ((p, q) ∷ m) e (h, a) =
    let index : i ≡ p = cc e in
    let rest : as_seen l ≡ seen s m = cc e in (omega arith, All-as_seen s j l m rest a)

as_seen-InOrder :
    (s : System) (l : List (ℕ × Block)) (m : List (ℕ × ℕ))
    → as_seen l ≡ seen s m
    → IsAscending m
    → InOrder l
as_seen-InOrder s [] m e a = tt
as_seen-InOrder s ((i, b) ∷ l) [] e a = absurd (cc e)
as_seen-InOrder s ((i, b) ∷ l) ((p, q) ∷ m) e (h, a) =
    let index : i ≡ p = cc e in
    let rest : as_seen l ≡ seen s m = cc e in
    (rw index (All-as_seen s p l m rest h), as_seen-InOrder s l m rest a)

-- What the worker sees is seen in its map of records.
find-seen :
    (s : System) (o : ℕ)
    → (elim (find o s.client.rank_map) [ none ↦ none | some r ↦ view s o ]) ≡ view s o
unfolding view
find-seen s o = elim (Option-cases (find o s.client.rank_map)) [
  | inl e ↦ ground (arith, e)
  | inr (r, e) ↦ ground (arith, e)
]

-- A worker that knows no record writes any blocks at indices below 2^31, and then the part of
-- PopRecord before its return statement is run as often as there are records: it reads each index that
-- was written once, in ascending order, with the block that was written there last, and no record is
-- left. PopRecord itself, if there is a record after the writes, goes on to read the erased entry of
-- the map.
pub writes-pops :
    (ws : List (ℕ × Block)) (s : System)
    → SysInv s
    → s.client.rank_map ≡ []
    → All (λ e. e.0 < 2 ^ 31) ws
    → (s1 : System) × (l : List (ℕ × Block)) × (s2 : System) × (writes ws s ≡ ok s1)
      × (pops (num_active s1.client.rank_map) s1 ≡ ok (l, s2))
      × InOrder l
      × ((o : ℕ) → find o l ≡ last_of ws o none)
      × (s2.client.rank_map ≡ [])
      × ((o r : ℕ) (rest : List (ℕ × ℕ))
          → s1.client.rank_map ≡ (o, r) ∷ rest
          → sys_pop s1 ≡ fail bad_access)
unfolding view find
writes-pops ws s v none_known fits =
    let small : Small s = λ o r e. absurd (ground (arith, none_known, e)) in
    let (s1, w) = writes-Written ws s v small (rw none_known tt) fits in
    let (l, s2, run, shown, gone) = pops-seen s1 w.inv w.in_order in
    (
      s1,
      l,
      s2,
      w.run,
      run,
      as_seen-InOrder s1 l s1.client.rank_map shown w.in_order,
      λ o.
          find-as_seen s1 o l s1.client.rank_map shown
          ∙ find-seen s1 o
          ∙ w.sees o
          ∙ ap (last_of ws o) (ground (arith, none_known)),
      gone,
      λ o r rest e. sys_pop-bad_access s1 o r rest w.inv w.in_order e,
    )
