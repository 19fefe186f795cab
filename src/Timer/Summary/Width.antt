-- ===== src/Timer/Summary/Width.antt =====
-- The widths in Summarize of src/grvy_timer.cpp.
use grvy.Base.{
  ℕ, zero, suc, ◌+◌, ◌-◌, ◌^◌, ◌<◌, ◌≤◌, List, [], ◌∷◌, ◌++◌, length, ltb, ◌≡◌, ap, ◌∙◌,
  if◌then◌else◌, ok, arith, Bool-cases, inl, inr, length-append,
}
use grvy.Base.Text.{Text, bytes}
use grvy.Timer.Types.{TimerData}
use grvy.Timer.Summary.{id_width, display_width, size_sub, max, min, take, add_ellipsis, shown_name}

length-take : (n : ℕ) (t : Text) → length (take n t) ≡ (if ltb n (length t) then n else length t)
length-take n [] = ground arith
length-take zero (c ∷ t) = ground arith
length-take (suc n) (c ∷ t) = ground (arith, length-take n t)

size_sub_lem : (w n : ℕ) → n ≤ w → w < 2 ^ 63 → size_sub w n ≡ w - n
size_sub_lem w n h l = omega arith

id_width-bounds :
    {A : Type 0} (w : ℕ) (m : List (Text × TimerData A)) (width : ℕ)
    → 120 ≤ w
    → w < 2 ^ 63
    → 20 ≤ width
    → width + 75 ≤ w
    → (20 ≤ id_width w m width) × (id_width w m width + 75 ≤ w)
unfolding id_width
id_width-bounds w [] width h l a b = (a, b)
id_width-bounds w ((id, d) ∷ m) width h l a b =
    let w35 = size_sub_lem w 35 (omega arith) l in
    let w75 = size_sub_lem (w - 35) 40 (omega arith) (omega arith) in
    let limit : size_sub (size_sub w 35) 40 ≡ w - 75 =
      ap (λ x. size_sub x 40) w35 ∙ w75 ∙ omega arith in
    let new = min (max width (length id + 1)) (size_sub (size_sub w 35) 40) in
    let low : 20 ≤ new = ground (arith, limit) in
    let high : new + 75 ≤ w = ground (arith, limit) in
    ground (arith, id_width-bounds w m width h l a b, id_width-bounds w m new h l low high)

display_width-bounds :
    (name : Text) (w width : ℕ)
    → 120 ≤ w
    → w < 2 ^ 63
    → 20 ≤ width
    → width + 75 ≤ w
    → (20 ≤ display_width name w width) × (display_width name w width + 75 ≤ w)
unfolding display_width
display_width-bounds name w width h l a b =
    let w40 = size_sub_lem w 40 (omega arith) l in
    let n = min (size_sub w 40) (length name + 23) in
    let small : n ≤ w - 40 = ground (arith, w40) in
    let left = size_sub_lem n 35 in ground (arith, w40, small, left)

shown_name-fits :
    (width : ℕ) (name : Text)
    → 20 ≤ width
    → (t : Text) × (shown_name width name ≡ ok t) × (length t < width)
unfolding shown_name add_ellipsis
shown_name-fits width name h =
    let cut = take (width - 1) name in
    let size = length-take (width - 1) name in
    elim (Bool-cases (ltb (width + 13) (length name))) [
      | inr e ↦ (cut, ground (arith, e), ground (arith, size))
      | inl e ↦ (
        take (length cut - 3) cut ++ bytes "...",
        ground (arith, e, size, h),
        ground (
          arith,
          e,
          size,
          h,
          length-take (length cut - 3) cut,
          length-append (take (length cut - 3) cut) (bytes "..."),
        ),
      )
    ]

-- With an output of at least 120 columns, the column of names has between 20 columns and 75 less
-- than the output, and every name is shown within it, without an access before its start.
pub summary_fits :
    {A : Type 0} (m : List (Text × TimerData A)) (title name : Text) (w : ℕ)
    → 120 ≤ w
    → w < 2 ^ 63
    → let width = display_width title w (id_width w m 20) in
      (20 ≤ width)
      × (width + 75 ≤ w)
      × ((t : Text) × (shown_name width name ≡ ok t) × (length t < width))
summary_fits m title name w h l =
    let (a, b) = id_width-bounds w m 20 h l (omega arith) (omega arith) in
    let (c, d) = display_width-bounds title w (id_width w m 20) h l a b in
    (c, d, shown_name-fits (display_width title w (id_width w m 20)) name c)
