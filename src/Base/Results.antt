-- ===== src/Base/Results.antt =====
-- Results of code that can stop: `exit`/MPI_Abort, a failed assert, or an access that C++ leaves
-- undefined.
use mathlib.Core.Path.{◌≡◌, refl}
use mathlib.Core.Logic.{◌⊎◌, inl, inr}
use mathlib.Core.Bool.{Bool, true, false}

pub data Fault : Type 0 where
  aborted assert_failed bad_access : Fault

pub data Result {ℓ} (A : Type ℓ) : Type ℓ where
  ok : A → Result A
  fail : Fault → Result A

infixl 5 ◌>>=◌ ◌>>◌
abbrev pub ◌>>=◌ {ℓ κ} : {A : Type ℓ} {B : Type κ} → Result A → (A → Result B) → Result B
ok a >>= f = f a
fail e >>= f = fail e

abbrev pub ◌>>◌ {ℓ} : {B : Type ℓ} → Result (Unit {0}) → Result B → Result B
m >> k = m >>= λ _. k

-- The code goes on if the test holds, and stops with the fault otherwise.
abbrev pub guard : Bool → Fault → Result (Unit {0})
guard true e = ok tt
guard false e = fail e

pub ok-injective {ℓ} : {A : Type ℓ} {a b : A} → ok a ≡ ok b → a ≡ b
ok-injective e = cc

pub Result-cases {ℓ} :
    {A : Type ℓ} (r : Result A) → ((a : A) × (r ≡ ok a)) ⊎ ((e : Fault) × (r ≡ fail e))
Result-cases (ok a) = inl (a, refl)
Result-cases (fail e) = inr (e, refl)
