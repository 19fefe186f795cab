-- ===== src/Base/Map/Laws.antt =====
-- What can be read after each operation of a map, and that no key comes to stand twice.
use mathlib.Core.Path.{◌≡◌, refl}
use mathlib.Core.Logic.{◌≢◌}
use mathlib.Core.Option
use mathlib.Core.Option.{Option, none, some}
use mathlib.Core.List.{List, [], ◌∷◌}
use native.Mathlib.Omega.{arith}
use grvy.Base.Tests.{if◌then◌else◌}
use grvy.Base.Map.{Key, find, insert, modify, erase, Unique}

module _ {ℓ κ} {K : Type ℓ} {V : Type κ} ⦃o : Key K⦄ where
  pub find-insert :
      (k j : K) (v : V) (m : List (K × V))
      → find j (insert k v m) ≡ (if o.beq k j then some v else find j m)
  unfolding find insert
  find-insert k j v [] = refl
  find-insert k j v ((i, w) ∷ m) =
      ground (arith, o.beq_iff k j, o.beq_iff i k, o.beq_iff i j, find-insert k j v m)

  pub find-modify :
      (k j : K) (f : V → V) (m : List (K × V))
      → find j (modify k f m) ≡ (if o.beq k j then Option.map f (find j m) else find j m)
  unfolding find modify
  find-modify k j f [] = ground arith
  find-modify k j f ((i, w) ∷ m) =
      ground (arith, o.beq_iff k j, o.beq_iff i k, o.beq_iff i j, find-modify k j f m)

  pub find-erase_ne : (k j : K) (m : List (K × V)) → k ≢ j → find j (erase k m) ≡ find j m
  unfolding find erase
  find-erase_ne k j [] h = refl
  find-erase_ne k j ((i, w) ∷ m) h =
      ground (arith, o.beq_iff k j, o.beq_iff i k, o.beq_iff i j, find-erase_ne k j m)

  pub find-erase_self : (k : K) (m : List (K × V)) → Unique m → find k (erase k m) ≡ none
  unfolding find erase
  find-erase_self k [] u = refl
  find-erase_self k ((i, w) ∷ m) u = ground (arith, o.beq_iff i k, find-erase_self k m)

  pub insert-Unique :
      (k : K) (v : V) (m : List (K × V)) → find k m ≡ none → Unique m → Unique (insert k v m)
  unfolding find insert
  insert-Unique k v [] h u = (refl, tt)
  insert-Unique k v ((i, w) ∷ m) h u =
      ground (arith, o.beq_iff i k, o.beq_iff k i, find-insert k i v m, insert-Unique k v m)

  pub modify-Unique : (k : K) (f : V → V) (m : List (K × V)) → Unique m → Unique (modify k f m)
  unfolding find modify
  modify-Unique k f [] u = tt
  modify-Unique k f ((i, w) ∷ m) u =
      ground (arith, o.beq_iff i k, o.beq_iff k i, find-modify k i f m, modify-Unique k f m)

  pub erase-Unique : (k : K) (m : List (K × V)) → Unique m → Unique (erase k m)
  unfolding find erase
  erase-Unique k [] u = tt
  erase-Unique k ((i, w) ∷ m) u =
      ground (arith, o.beq_iff i k, find-erase_ne k i m, erase-Unique k m)
