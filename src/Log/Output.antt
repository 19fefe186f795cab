-- ===== src/Log/Output.antt =====
-- Which messages the log of src/grvy_classes.cpp writes.
use grvy.Base.{
  Bool, true, false, not, none, some, leb, List, [], ◌∷◌, ◌++◌, if◌then◌else◌, ◌≡◌, refl, sym, ap,
  ◌∙◌, arith, Bool-cases, inl, inr,
}
use mathlib.Core.List.{append_assoc, append-nil}
use grvy.Base.Map.{find}
use grvy.Base.Map.Laws.{find-insert}
use grvy.Base.Int.{ℤ, pos, negsuc, ltb_ℤ, int_key, beq_ℤ_iff}
use grvy.Base.Text.{Text}
use grvy.Log.Calls.{Log, is_log, mask_of, touch_mask, write_out, msg, msg_printf, grvy_printf}

-- A message of `grvy_log` or of `grvy_printf`, with the value that vprintf returns.
pub data Post : Type 0 where
  log_post : ℤ → Text → Post
  printf_post : ℤ → Text → ℤ → Post

abbrev pub post : Post → Log → Log
post (log_post priority text) l = msg priority text l
post (printf_post priority text done) l = (grvy_printf priority text done l).1

abbrev pub post_all : List Post → Log → Log
post_all [] l = l
post_all (p ∷ ps) l = post_all ps (post p l)

-- The order of the integers.
abbrev pub at_most : ℤ → ℤ → Bool
at_most (pos a) (pos b) = leb a b
at_most (pos a) (negsuc b) = false
at_most (negsuc a) (pos b) = true
at_most (negsuc a) (negsuc b) = leb b a

ltb-at_most : (p level : ℤ) → not (ltb_ℤ level p) ≡ at_most p level
ltb-at_most (pos a) (pos b) = ground arith
ltb-at_most (pos a) (negsuc b) = ground arith
ltb-at_most (negsuc a) (pos b) = ground arith
ltb-at_most (negsuc a) (negsuc b) = ground arith

-- The mask of a priority: empty where there is none.
abbrev pub mask_at : ℤ → List (ℤ × Text) → Text
mask_at priority masks = elim (find priority masks) [ none ↦ [] | some mask ↦ mask ]

-- What should be written of a message, under the level and the masks of a log.
abbrev pub shown : Log → Post → Text
shown l (log_post priority text) =
    if at_most priority l.log_level then mask_at priority l.log_mask ++ (text ++ 10 ∷ []) else []
shown l (printf_post priority text done) =
    if at_most priority l.log_level then mask_at priority l.log_mask ++ text else []

abbrev pub all_shown : Log → List Post → Text
all_shown l [] = []
all_shown l (p ∷ ps) = shown l p ++ all_shown l ps

mask_of-touch : (i j : ℤ) (l : Log) → mask_of i (touch_mask j l) ≡ mask_of i l
unfolding mask_of touch_mask
mask_of-touch i j l = ground (arith, beq_ℤ_iff j i, find-insert j i [] l.log_mask)

-- Logs of one level whose masks read the same.
abbrev Agrees : Log → Log → Type 0
Agrees l l' = (l.log_level ≡ l'.log_level) × ((i : ℤ) → mask_of i l ≡ mask_of i l')

mask_of-write_out : (i : ℤ) (t : Text) (l : Log) → mask_of i (write_out t l) ≡ mask_of i l
unfolding mask_of
mask_of-write_out i t l = refl

touch_mask-level : (j : ℤ) (l : Log) → (touch_mask j l).log_level ≡ l.log_level
unfolding touch_mask
touch_mask-level j l = ground arith

touch_mask-output : (j : ℤ) (l : Log) → (touch_mask j l).output ≡ l.output
unfolding touch_mask
touch_mask-output j l = ground arith

post-Agrees : (p : Post) (l : Log) → Agrees (post p l) l
unfolding msg msg_printf grvy_printf mask_of
post-Agrees (log_post priority text) l =
    (ground (arith, touch_mask-level priority l), λ i. ground (arith, mask_of-touch i priority l))
post-Agrees (printf_post priority text done) l =
    (ground (arith, touch_mask-level priority l), λ i. ground (arith, mask_of-touch i priority l))

shown-Agrees : (p : Post) (l l' : Log) → Agrees l l' → shown l p ≡ shown l' p
unfolding mask_of
shown-Agrees (log_post priority text) l l' (a, b) =
    λ i. if at_most priority (a i) then b priority i ++ (text ++ 10 ∷ []) else []
shown-Agrees (printf_post priority text done) l l' (a, b) =
    λ i. if at_most priority (a i) then b priority i ++ text else []

all_shown-Agrees : (ps : List Post) (l l' : Log) → Agrees l l' → all_shown l ps ≡ all_shown l' ps
all_shown-Agrees [] l l' a = refl
all_shown-Agrees (p ∷ ps) l l' a =
    ap (λ t. t ++ all_shown l ps) (shown-Agrees p l l' a)
    ∙ ap (λ t. shown l' p ++ t) (all_shown-Agrees ps l l' a)

post-output : (p : Post) (l : Log) → (post p l).output ≡ l.output ++ shown l p
unfolding msg msg_printf grvy_printf mask_of
post-output (log_post priority text) l = elim (Bool-cases (is_log priority l)) [
  | inl e ↦
      rw (e, sym (ltb-at_most priority l.log_level) ∙ e)
        (ap (λ o. (o ++ mask_of priority l) ++ (text ++ 10 ∷ [])) (touch_mask-output priority l)
          ∙ append_assoc l.output (mask_of priority l) (text ++ 10 ∷ []))
  | inr e ↦ rw (e, sym (ltb-at_most priority l.log_level) ∙ e) (sym (append-nil l.output))
]
post-output (printf_post priority text done) l =
    let written =
      ap (λ o. (o ++ mask_of priority l) ++ text) (touch_mask-output priority l)
      ∙ append_assoc l.output (mask_of priority l) text in
    ground (arith, written, append-nil l.output, ltb-at_most priority l.log_level)

-- Any sequence of messages writes, in their order, exactly those whose priority is at most the log
-- level, each after the mask of its priority.
pub post_all-output :
    (ps : List Post) (l : Log) → (post_all ps l).output ≡ l.output ++ all_shown l ps
post_all-output [] l = sym (append-nil l.output)
post_all-output (p ∷ ps) l =
    post_all-output ps (post p l)
    ∙ ap (λ o. o ++ all_shown (post p l) ps) (post-output p l)
    ∙ ap (λ t. (l.output ++ shown l p) ++ t) (all_shown-Agrees ps (post p l) l (post-Agrees p l))
    ∙ append_assoc l.output (shown l p) (all_shown l ps)
