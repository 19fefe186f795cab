-- ===== src/Utils/Cleaned.antt =====
-- What becomes of the scratch directories of src/grvy_utils.cpp.
use mathlib.Core.Path.{subst}
use grvy.Base.{
  true, false, fail, sym, ◌++◌, ok-injective, ◌≤◌, Option, none, some, List, [], ◌∷◌, All, ◌≡◌, ◌≢◌,
  ◌⊎◌, inl, inr, refl, if◌then◌else◌, Result, ok, ◌>>=◌, arith, Bool-cases, Option-cases,
  Result-cases,
}
use grvy.Base.Int.{ℤ, pos, beq_ℤ, beq_ℤ_iff}
use grvy.Base.Text.{Text}
use grvy.Utils.Scratch.{
  ScratchCalls, Scratch, is_zero, verify_string_ends_with_6_xs, make_unique, create_unique_dir,
  push_path, keep_path, create_scratch_dir, at_exit,
}
use grvy.Utils.Removal.{RemovalCalls}
use grvy.Utils.Removed.{IsGone, Removes, exit_handler-IsGone}

module _ {S : Type 0} (calls : ScratchCalls S) where
  -- A path is on the stack only if the handler is registered.
  abbrev pub IsCovered : Scratch S → Type 0
  IsCovered st = (st.paths ≡ []) ⊎ (1 ≤ st.handlers)

  -- The directory that mkdtemp makes for a template, if it makes one.
  abbrev pub dir_for : Option Text → S → List Text
  dir_for none s = []
  dir_for (some template) s = elim (calls.mkdtemp template s).0 [
    | none ↦ []
    | some path ↦ path ∷ []
  ]

  -- The code 0 and the directories on the stack, or another code and the same stack.
  abbrev pub Outcome : List Text → Scratch S → ℤ → Scratch S → Type 0
  Outcome dirs st code st' =
      ((code ≡ pos 0) × (st'.paths ≡ dirs ++ st.paths)) ⊎ ((code ≢ pos 0) × (st'.paths ≡ st.paths))

  abbrev Kept : List Text → Scratch S → ℤ × Scratch S → Type 0
  Kept dirs st r = IsCovered r.1 × Outcome dirs st r.0 r.1

  push_path-Kept :
      (path : Text) (st : Scratch S) → IsCovered st → Kept (path ∷ []) st (push_path calls path st)
  unfolding push_path
  push_path-Kept path st c = ground arith

  keep_path-Kept :
      (path : Text) (st : Scratch S)
      → IsCovered st
      → Kept (path ∷ []) st (keep_path calls (some path) st)
  unfolding keep_path
  keep_path-Kept path st c =
      ground (arith, push_path-Kept path (record st { system = (calls.strdup st.system).1 }))

  verify_none : verify_string_ends_with_6_xs none ≡ ok (pos 1)
  unfolding verify_string_ends_with_6_xs
  verify_none = refl

  make_unique-Kept :
      (name : Text) (st : Scratch S) (r : ℤ × Scratch S)
      → IsCovered st
      → (make_unique calls (some name) st.system >>= (λ m.
          let made_st = record st { system = m.2 } in
          if is_zero m.0 then ok (keep_path calls m.1 made_st) else ok (m.0, made_st)))
        ≡ ok r
      → Kept (dir_for (some name) st.system) st r
  unfolding make_unique
  make_unique-Kept name st r c h =
      let s = (calls.mkdtemp name st.system).1 in
      elim (Option-cases (calls.mkdtemp name st.system).0) [
        | inl e ↦ ground (arith, h, e, c)
        | inr (path, e) ↦ ground (arith, h, e, keep_path-Kept path (record st { system = s }))
      ]

  create-Kept :
      (name : Option Text) (st : Scratch S) (r : ℤ × Scratch S)
      → IsCovered st
      → create_scratch_dir calls name st ≡ ok r
      → Kept (dir_for name st.system) st r
  unfolding create_scratch_dir create_unique_dir
  create-Kept none st r c h = ground (arith, h, c, verify_none)
  create-Kept (some name) st r c h =
      elim (Result-cases (verify_string_ends_with_6_xs (some name))) [
        | inr (f, e) ↦ ground (arith, h, e)
        | inl (z, e) ↦ elim (Bool-cases (is_zero z)) [
          | inl ez ↦ make_unique-Kept name st r c (ground (arith, h, e, ez))
          | inr ez ↦ ground (arith, h, e, ez, c)
        ]
      ]

  -- grvy_create_scratch_dir returns 0 and puts the directory that it made on the stack, or returns another code and
  -- leaves the stack as it was.
  pub create_scratch_dir-outcome :
      (name : Option Text) (st st' : Scratch S) (code : ℤ)
      → IsCovered st
      → create_scratch_dir calls name st ≡ ok (code, st')
      → Outcome (dir_for name st.system) st code st'
  create_scratch_dir-outcome name st st' code c h = (create-Kept name st (code, st') c h).1

  -- Calls one after another, whatever their codes.
  abbrev pub create_all : List (Option Text) → Scratch S → Result (Scratch S)
  create_all [] st = ok st
  create_all (name ∷ names) st = create_scratch_dir calls name st >>= (λ r. create_all names r.1)

  create_all-IsCovered :
      (names : List (Option Text)) (st st' : Scratch S)
      → IsCovered st
      → create_all names st ≡ ok st'
      → IsCovered st'
  create_all-IsCovered [] st st' c h = ground (arith, h, c)
  create_all-IsCovered (name ∷ names) st st' c h =
      elim (Result-cases (create_scratch_dir calls name st)) [
        | inl (r, e) ↦
            create_all-IsCovered names r.1 st' (create-Kept name st r c e).0 (ground (arith, h, e))
        | inr (f, e) ↦ ground (arith, h, e)
      ]

  -- The directories that were made by those of the calls that return 0.
  abbrev pub made_dirs : List (Option Text) → Scratch S → List Text
  made_dirs [] st = []
  made_dirs (name ∷ names) st = elim (create_scratch_dir calls name st) [
    | fail e ↦ []
    | ok r ↦ (if beq_ℤ r.0 (pos 0) then dir_for name st.system else []) ++ made_dirs names r.1
  ]

  All-append_split :
      (P : Text → Type 0) (xs ys : List Text) → All P (xs ++ ys) → All P xs × All P ys
  All-append_split P [] ys a = (tt, a)
  All-append_split P (x ∷ xs) ys (h, a) = let (l, r) = All-append_split P xs ys a in ((h, l), r)

  All-append_join : (P : Text → Type 0) (xs ys : List Text) → All P xs → All P ys → All P (xs ++ ys)
  All-append_join P [] ys a b = b
  All-append_join P (x ∷ xs) ys (h, a) b = (h, All-append_join P xs ys a b)

  -- What holds of the paths on the stack after the calls holds of the directories that they made.
  made_dirs-All :
      (P : Text → Type 0) (names : List (Option Text)) (st st' : Scratch S)
      → IsCovered st
      → create_all names st ≡ ok st'
      → All P st'.paths
      → All P (made_dirs names st) × All P st.paths
  made_dirs-All P [] st st' c h a =
      (tt, subst (λ (s : Scratch S). All P s.paths) (sym (ok-injective h)) a)
  made_dirs-All P (name ∷ names) st st' c h a =
      elim (Result-cases (create_scratch_dir calls name st)) [
        | inr (f, e) ↦ absurd (ground (arith, h, e))
        | inl (r, e) ↦
            let (covered, outcome) = create-Kept name st r c e in
            let (later, now) = made_dirs-All P names r.1 st' covered (ground (arith, h, e)) a in
            elim outcome [
              | inl (zero_code, paths) ↦
                  let (mine, before) =
                    All-append_split P (dir_for name st.system) st.paths
                      (subst (All P) paths now) in
                  let code : beq_ℤ r.0 (pos 0) ≡ true = rw zero_code refl in
                  let dirs : made_dirs (name ∷ names) st
                      ≡ dir_for name st.system ++ made_dirs names r.1 =
                    ground (arith, e, code) in
                  (
                    subst (All P) (sym dirs) (
                        All-append_join P (dir_for name st.system) (made_dirs names r.1) mine
                          later),
                    before,
                  )
              | inr (other_code, paths) ↦
                  let code : beq_ℤ r.0 (pos 0) ≡ false =
                    ground (arith, other_code, beq_ℤ_iff r.0 (pos 0)) in
                  let dirs : made_dirs (name ∷ names) st ≡ made_dirs names r.1 =
                    ground (arith, e, code) in
                  (subst (All P) (sym dirs) later, subst (All P) paths now)
            ]
      ]

  -- After any calls of grvy_create_scratch_dir from an empty stack, and the exit of the program, no
  -- directory is left that was made by a call that returned 0, if nftw can read the directories on
  -- the stack and each removal returns 0.
  pub scratch_cleaned :
      (removal : RemovalCalls S) (names : List (Option Text)) (s : S) (st : Scratch S)
      → create_all names (record { system = s; paths = []; handlers = 0 }) ≡ ok st
      → Removes removal st.paths st.system
      → All
          (IsGone removal (at_exit removal st))
          (made_dirs names (record { system = s; paths = []; handlers = 0 }))
  unfolding at_exit
  scratch_cleaned removal names s st h r =
      let start : Scratch S = record { system = s; paths = []; handlers = 0 } in
      let gone : All (IsGone removal (at_exit removal st)) st.paths =
        elim (create_all-IsCovered names start st (inl refl) h) [
          | inl e ↦ ground (arith, e)
          | inr e ↦ ground (arith, e, exit_handler-IsGone removal st.paths st.system r)
        ] in
      (made_dirs-All (IsGone removal (at_exit removal st)) names start st (inl refl) h gone).0
