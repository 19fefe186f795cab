-- ===== src/Utils/Template.antt =====
-- Which name templates src/grvy_utils.cpp accepts.
use grvy.Base.{
  ℕ, zero, suc, ◌-◌, Bool, true, false, some, [], ◌∷◌, ◌++◌, length, ◌==◌, ◌≡◌, refl, ◌∙◌,
  if◌then◌else◌, ok, arith, length-append,
}
use grvy.Base.Int.{pos}
use grvy.Base.Text.{Text}
use grvy.Utils.Scratch.{letter_x, num_required, check_xs, verify_string_ends_with_6_xs}

abbrev pub only_xs : Text → Bool
only_xs [] = true
only_xs (c ∷ t) = if c == letter_x then only_xs t else false

check_xs-shift : (a : ℕ) (name : Text) (i n : ℕ) → check_xs (a ∷ name) (suc i) n ≡ check_xs name i n
unfolding check_xs
check_xs-shift a name i zero = refl
check_xs-shift a name i (suc n) = ground (arith, check_xs-shift a name (suc i) n)

check_xs-append : (stem t : Text) (n : ℕ) → check_xs (stem ++ t) (length stem) n ≡ check_xs t 0 n
check_xs-append [] t n = refl
check_xs-append (a ∷ stem) t n =
    check_xs-shift a (stem ++ t) (length stem) n ∙ check_xs-append stem t n

check_xs-all : (t : Text) → check_xs t 0 (length t) ≡ ok (if only_xs t then pos 0 else pos 1)
unfolding check_xs
check_xs-all [] = refl
check_xs-all (c ∷ t) = ground (arith, check_xs-all t, check_xs-shift c t 0 (length t))

-- A name of six bytes or more is accepted with 0 if its last six are the letter X, and refused
-- with 1 otherwise.
pub verify-last_six :
    (stem t : Text)
    → length t ≡ num_required
    → verify_string_ends_with_6_xs (some (stem ++ t)) ≡ ok (if only_xs t then pos 0 else pos 1)
unfolding verify_string_ends_with_6_xs
verify-last_six stem t h =
    let sizes = length-append stem t in
    let start : length (stem ++ t) - num_required ≡ length stem = omega arith in
    ground (arith, h, sizes, start, check_xs-append stem t num_required, check_xs-all t)
