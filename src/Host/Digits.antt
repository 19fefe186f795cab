-- ===== src/Host/Digits.antt =====
-- numDigits_positive of src/grvy_int.h, at an integer type.
use grvy.Base.{
  ℕ, zero, suc, ◌+◌, ◌*◌, ◌/◌, ◌^◌, ◌<◌, ◌≤◌, ◌==◌, if◌then◌else◌, ◌≡◌, ◌⊎◌, inl, inr, refl, ap,
  ◌∙◌, arith,
}
use native.Mathlib.Nat.{pow-succ'}
use grvy.Base.Int.{ℤ, pos, negsuc}

-- The while loop, of at most the given number of rounds.
unfoldable pub count_digits : ℕ → ℕ → ℕ
count_digits zero number = 0
count_digits (suc fuel) number =
    let rest = count_digits fuel (number / 10) in if number == 0 then 0 else rest + 1

-- A number has no more digits than its value.
unfoldable pub num_digits_positive : ℤ → ℕ
num_digits_positive (negsuc n) = 0
num_digits_positive (pos n) = count_digits n n

count_digits_zero : (fuel : ℕ) → count_digits fuel 0 ≡ 0
unfolding count_digits
count_digits_zero zero = refl
count_digits_zero (suc fuel) = ground arith

-- With enough fuel the loop ends at 0, and the number stands between powers of ten.
count_digits-bounds :
    (fuel n : ℕ)
    → n ≤ fuel
    → (n < 10 ^ count_digits fuel n) × ((n ≡ 0) ⊎ (10 ^ count_digits fuel n ≤ 10 * n))
unfolding count_digits
count_digits-bounds zero n h = ground arith
count_digits-bounds (suc fuel) n h =
    let (upper, lower) = count_digits-bounds fuel (n / 10) (omega arith) in
    elim lower [
      | inl e ↦
          let none_left : count_digits fuel (n / 10) ≡ 0 =
            ap (count_digits fuel) e ∙ count_digits_zero fuel in
          ground (arith, e, none_left, upper)
      | inr l ↦ ground (arith, l, upper, pow-succ' 10 (count_digits fuel (n / 10)))
    ]

-- A positive number n of d digits, as counted, stands between the powers of ten: n is below the
-- d-th, and not below the one before.
pub num_digits_positive-bounds :
    (n : ℕ)
    → 1 ≤ n
    → (n < 10 ^ num_digits_positive (pos n)) × (10 ^ num_digits_positive (pos n) ≤ 10 * n)
unfolding num_digits_positive
num_digits_positive-bounds n h =
    let (upper, lower) = count_digits-bounds n n (omega arith) in
    (upper, elim lower [ inl e ↦ omega (arith, e) | inr l ↦ l ])
