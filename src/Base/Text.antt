-- ===== src/Base/Text.antt =====
-- std::string and C strings as lists of bytes, with the order that std::map gives them.
use Prim.Native.Nat.{ℕ}
use Prim.Native.Char.{code}
use Prim.Native.String.{String}
use mathlib.Core.Path.{◌≡◌}
use mathlib.Core.Logic.{◌↔◌}
use mathlib.Core.Bool.{Bool, true, false, ◌&&◌, ◌||◌}
use mathlib.Core.List.{List, [], ◌∷◌}
use native.Mathlib.Omega.{arith}
use grvy.Base.Tests.{ltb, ◌==◌}
use grvy.Base.Map.{Key}

abbrev pub Text : Type 0
Text = List ℕ

-- The bytes of an ASCII literal.
abbrev pub bytes : String → Text
bytes String.[] = []
bytes (String.◌∷◌ c s) = code c ∷ bytes s

unfoldable pub text_beq : Text → Text → Bool
text_beq [] [] = true
text_beq [] (b ∷ t) = false
text_beq (a ∷ s) [] = false
text_beq (a ∷ s) (b ∷ t) = (a == b) && text_beq s t

unfoldable pub text_before : Text → Text → Bool
text_before [] [] = false
text_before [] (b ∷ t) = true
text_before (a ∷ s) [] = false
text_before (a ∷ s) (b ∷ t) = ltb a b || ((a == b) && text_before s t)

pub text_beq_iff : (s t : Text) → (text_beq s t ≡ true) ↔ (s ≡ t)
unfolding text_beq
text_beq_iff [] [] = ground arith
text_beq_iff [] (b ∷ t) = ground arith
text_beq_iff (a ∷ s) [] = ground arith
text_beq_iff (a ∷ s) (b ∷ t) = ground (arith, text_beq_iff s t)

instance abbrev pub text_key : Key Text
text_key = record { beq = text_beq; before = text_before; beq_iff = text_beq_iff }
