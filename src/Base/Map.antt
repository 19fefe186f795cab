-- ===== src/Base/Map.antt =====
-- std::map as an association list in key order, over a key type with an order.
pub mod Laws
use mathlib.Core.Path.{◌≡◌}
use mathlib.Core.Logic.{◌↔◌}
use mathlib.Core.Bool.{Bool, true}
use mathlib.Core.Option.{Option, none, some}
use mathlib.Core.List.{List, [], ◌∷◌}
use Prim.Native.Nat.{ℕ}
use grvy.Base.Tests.{ltb, ◌==◌, ==_iff, if◌then◌else◌}

pub record Key {ℓ} (K : Type ℓ) : Type ℓ where
  pub beq : K → K → Bool
  pub before : K → K → Bool
  pub beq_iff : (a b : K) → (beq a b ≡ true) ↔ (a ≡ b)

instance abbrev pub nat_key : Key ℕ
nat_key = record { beq = λ a b. a == b; before = ltb; beq_iff = ==_iff }

module _ {ℓ κ} {K : Type ℓ} {V : Type κ} ⦃o : Key K⦄ where
  -- `find`: none stands for `end()`.
  unfoldable pub find : K → List (K × V) → Option V
  find k [] = none
  find k ((j, v) ∷ m) = if o.beq j k then some v else find k m

  -- `m[k] = v`.
  unfoldable pub insert : K → V → List (K × V) → List (K × V)
  insert k v [] = (k, v) ∷ []
  insert k v ((j, w) ∷ m) =
      let rest = insert k v m in
      if o.beq j k then (k, v) ∷ m else if o.before k j then (k, v) ∷ (j, w) ∷ m else (j, w) ∷ rest

  -- A change of the fields of `m[k]`, where k is known to be in the map.
  unfoldable pub modify : K → (V → V) → List (K × V) → List (K × V)
  modify k f [] = []
  modify k f ((j, w) ∷ m) = if o.beq j k then (j, f w) ∷ m else (j, w) ∷ modify k f m

  -- `erase(it)`, where `it` stands at k.
  unfoldable pub erase : K → List (K × V) → List (K × V)
  erase k [] = []
  erase k ((j, w) ∷ m) = if o.beq j k then m else (j, w) ∷ erase k m

  -- No key stands twice.
  abbrev pub Unique : List (K × V) → Type κ
  Unique [] = Unit
  Unique ((j, w) ∷ m) = (find j m ≡ none) × Unique m
