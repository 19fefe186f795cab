-- ===== src/Utils/Scratch.antt =====
-- The scratch directories of src/grvy_utils.cpp, and the check of their name templates.
use grvy.Base.{
  ℕ, zero, suc, ◌+◌, ◌-◌, Bool, false, Option, none, some, List, [], ◌∷◌, length, get_elem?, ltb,
  ◌==◌, if◌then◌else◌, Result, ok, fail, bad_access, ◌>>=◌,
}
use grvy.Base.Int.{ℤ, pos, negsuc}
use grvy.Base.Text.{Text}
use grvy.Utils.Removal.{RemovalCalls, exit_handler}

-- 'X'.
abbrev pub letter_x : ℕ
letter_x = 88

-- `NUM_REQUIRED_TRAILING_X`.
abbrev pub num_required : ℕ
num_required = 6

-- The loop over n characters from place i.
unfoldable pub check_xs : Text → ℕ → ℕ → Result ℤ
check_xs name i zero = ok (pos 0)
check_xs name i (suc n) =
    let rest = check_xs name (i + 1) n in
    elim (get_elem? name i) [
      | none ↦ fail bad_access
      | some c ↦ if c == letter_x then rest else ok (pos 1)
    ]

-- `verify_string_ends_with_6_Xs`: none is the null pointer. A place before the start is read first
-- if the template is short.
unfoldable pub verify_string_ends_with_6_xs : Option Text → Result ℤ
verify_string_ends_with_6_xs none = ok (pos 1)
verify_string_ends_with_6_xs (some name) =
    if ltb (length name) num_required
    then fail bad_access
    else check_xs name (length name - num_required) num_required

-- The system calls: mkdtemp returns the name of the new directory, strdup may find no memory, and
-- atexit returns its code.
pub record ScratchCalls (S : Type 0) : Type 0 where
  pub mkdtemp : Text → S → Option Text × S
  pub strdup : S → Bool × S
  pub atexit : S → ℤ × S

-- The stack of paths, and how often the exit handler is registered.
pub record Scratch (S : Type 0) : Type 0 where
  pub system : S
  pub paths : List Text
  pub handlers : ℕ

-- `!status`.
abbrev pub is_zero : ℤ → Bool
is_zero (pos n) = n == 0
is_zero (negsuc n) = false

module _ {S : Type 0} (calls : ScratchCalls S) where
  -- The call of mkdtemp: the code, the name, and the state of the system.
  unfoldable pub make_unique : Option Text → S → Result (ℤ × Option Text × S)
  make_unique none s = fail bad_access
  make_unique (some template) s =
      let (made, s') = calls.mkdtemp template s in
      elim made [ none ↦ ok (negsuc 0, some template, s') | some path ↦ ok (pos 0, some path, s') ]

  -- `grvy_create_unique_dir`.
  unfoldable pub create_unique_dir : Option Text → S → Result (ℤ × Option Text × S)
  create_unique_dir name s = do
    status ← verify_string_ends_with_6_xs name
    if is_zero status then make_unique name s else ok (status, name, s)

  -- With an empty stack, the handler is registered before the path is put there.
  unfoldable pub push_path : Text → Scratch S → ℤ × Scratch S
  push_path path st =
      let (code, s) = calls.atexit st.system in
      elim st.paths [
        | p ∷ paths ↦ (pos 0, record st { paths = path ∷ p ∷ paths })
        | [] ↦
            if is_zero code
            then (code, record st { system = s; paths = path ∷ []; handlers = st.handlers + 1 })
            else (code, record st { system = s })
      ]

  -- The end of `grvy_create_scratch_dir`, for a directory that was made.
  unfoldable pub keep_path : Option Text → Scratch S → ℤ × Scratch S
  keep_path none st = (pos 0, st)
  keep_path (some path) st =
      let (copied, s) = calls.strdup st.system in
      if copied
      then push_path path (record st { system = s })
      else (negsuc 0, record st { system = s })

  -- `grvy_create_scratch_dir`.
  unfoldable pub create_scratch_dir : Option Text → Scratch S → Result (ℤ × Scratch S)
  create_scratch_dir name st = do
    first ← verify_string_ends_with_6_xs name
    if is_zero first
        then (do
          (status, made, s) ← create_unique_dir name st.system
          let made_st = record st { system = s }
          if is_zero status then ok (keep_path made made_st) else ok (status, made_st))
        else ok (first, st)

-- At exit, each registration runs the handler, and it runs on an empty stack after the first.
unfoldable pub at_exit : {S : Type 0} → RemovalCalls S → Scratch S → S
at_exit removal st =
    if ltb 0 st.handlers then exit_handler removal st.paths st.system else st.system
