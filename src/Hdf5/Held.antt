-- ===== src/Hdf5/Held.antt =====
-- The HDF5 objects that src/grvy_hdf5.cpp keeps open, over calls on groups that it opens first.
use grvy.Base.{
  ℕ, ◌+◌, ◌-◌, Bool, true, false, none, List, [], ◌∷◌, ◌≡◌, refl, inl, inr, if◌then◌else◌, Result,
  ok, fail, ◌>>=◌, arith, Bool-cases, Option-cases,
}
use grvy.Base.Map.{find, insert}
use grvy.Base.Int.{ℤ, beq_ℤ, beq_ℤ_iff}
use grvy.Base.Text.{Text, text_key}
use grvy.Hdf5.Library.{is_negative, Library}
use grvy.Hdf5.Types.{H5, silence, restore, is_group_open}
use grvy.Hdf5.Files.{take_file, create_file, file_exists, open_file, close_groups, close_file}
use grvy.Hdf5.Objects.{bad_id, group_create, group_open}

-- How often an identifier stands in a list, and among the values of a map.
abbrev pub count : ℤ → List ℤ → ℕ
count i [] = 0
count i (j ∷ l) = (if beq_ℤ j i then 1 else 0) + count i l

abbrev pub remove : ℤ → List ℤ → List ℤ
remove i [] = []
remove i (j ∷ l) = if beq_ℤ j i then l else j ∷ remove i l

abbrev pub count_values : ℤ → List (Text × ℤ) → ℕ
count_values i [] = 0
count_values i ((k, j) ∷ m) = (if beq_ℤ j i then 1 else 0) + count_values i m

-- The identifiers that the library has open after it returned one: a negative one opens nothing.
abbrev pub opened : ℤ → List ℤ → List ℤ
opened id l = if is_negative id then l else id ∷ l

-- What is documented of the library's objects: a call that opens or creates one adds its identifier
-- to the open ones, a close takes it away, and others change none.
pub record Objects {S V : Type 0} (lib : Library S V) : Type 0 where
  pub open_ids : S → List ℤ
  pub f_create-opens :
      (f : Text) (o : Bool) (s : S)
      → open_ids (lib.f_create f o s).1 ≡ opened (lib.f_create f o s).0 (open_ids s)
  pub f_open-opens :
      (f : Text) (r : Bool) (s : S)
      → open_ids (lib.f_open f r s).1 ≡ opened (lib.f_open f r s).0 (open_ids s)
  pub f_close-closes : (id : ℤ) (s : S) → open_ids (lib.f_close id s) ≡ remove id (open_ids s)
  pub g_create-opens :
      (id : ℤ) (g : Text) (s : S)
      → open_ids (lib.g_create id g s).1 ≡ opened (lib.g_create id g s).0 (open_ids s)
  pub g_set_comment-opens :
      (id : ℤ) (g : Text) (s : S) → open_ids (lib.g_set_comment id g s).1 ≡ open_ids s
  pub g_open-opens :
      (id : ℤ) (g : Text) (s : S)
      → open_ids (lib.g_open id g s).1 ≡ opened (lib.g_open id g s).0 (open_ids s)
  pub g_close-closes : (id : ℤ) (s : S) → open_ids (lib.g_close id s).1 ≡ remove id (open_ids s)
  pub d_open-opens :
      (id : ℤ) (d : Text) (s : S)
      → open_ids (lib.d_open id d s).1 ≡ opened (lib.d_open id d s).0 (open_ids s)
  pub d_open-fails :
      (id : ℤ) (d : Text) (s : S)
      → is_negative (lib.d_open id d s).0 ≡ true
      → (lib.d_open id d s).0 ≡ bad_id
  pub d_close-closes : (id : ℤ) (s : S) → open_ids (lib.d_close id s).1 ≡ remove id (open_ids s)
  pub a_open-opens :
      (id : ℤ) (a : Text) (s : S)
      → open_ids (lib.a_open id a s).1 ≡ opened (lib.a_open id a s).0 (open_ids s)
  pub a_close-closes : (id : ℤ) (s : S) → open_ids (lib.a_close id s) ≡ remove id (open_ids s)

pub count-remove :
    (i j : ℤ) (l : List ℤ) → count i (remove j l) ≡ count i l - (if beq_ℤ j i then 1 else 0)
count-remove i j [] = ground arith
count-remove i j (k ∷ l) =
    ground (arith, count-remove i j l, beq_ℤ_iff k j, beq_ℤ_iff k i, beq_ℤ_iff j i)

pub count_values-insert :
    (i v : ℤ) (k : Text) (m : List (Text × ℤ))
    → find k m ≡ none
    → count_values i (insert k v m) ≡ (if beq_ℤ v i then 1 else 0) + count_values i m
unfolding find insert
count_values-insert i v k [] h = refl
count_values-insert i v k ((j, w) ∷ m) h = ground (arith, h, count_values-insert i v k m)

module _ {S V : Type 0} {lib : Library S V} (objects : Objects lib) (i : ℤ) where
  -- How often the identifier stands in the state: as the file, and in the three maps.
  abbrev pub held : H5 S → ℕ
  held h =
      count i (opened h.file_id [])
      + (count_values i h.group_ids
          + (count_values i h.dataset_ids + count_values i h.attribute_ids))

  -- The library has it open as often as the state holds it.
  abbrev pub Held : H5 S → Type 0
  Held h = count i (objects.open_ids h.system) ≡ held h

  -- Where a call returns, this is so.
  abbrev pub OkHeld : Result (H5 S) → Type 0
  OkHeld (ok h) = Held h
  OkHeld (fail e) = Unit

  close_groups-counts :
      (m : List (Text × ℤ)) (s : S)
      → count i (objects.open_ids (close_groups lib m s))
        ≡ count i (objects.open_ids s) - count_values i m
  unfolding close_groups
  close_groups-counts [] s = omega arith
  close_groups-counts ((k, j) ∷ m) s = ground (
    arith,
    close_groups-counts m (lib.g_close j s).1,
    objects.g_close-closes j s,
    count-remove i j (objects.open_ids s),
  )

  -- Close of an open file leaves the data sets and attributes.
  pub close_file-counts :
      (h : H5 S)
      → Held h
      → is_negative h.file_id ≡ false
      → count i (objects.open_ids (close_file lib h).system)
        ≡ count_values i h.dataset_ids + count_values i h.attribute_ids
  unfolding close_file
  close_file-counts h e on = ground (
    arith,
    e,
    on,
    close_groups-counts h.group_ids h.system,
    objects.f_close-closes h.file_id (close_groups lib h.group_ids h.system),
    count-remove i h.file_id (objects.open_ids (close_groups lib h.group_ids h.system)),
  )

  pub close_file-Held : (h : H5 S) → Held h → Held (close_file lib h)
  unfolding close_file
  close_file-Held h e = elim (Bool-cases (is_negative h.file_id)) [
    | inl shut ↦ ground (arith, e, shut)
    | inr on ↦ ground (arith, on, close_file-counts h e on)
  ]

  pub create_file-Held : (f : Text) (o : Bool) (h : H5 S) → Held h → OkHeld (create_file lib f o h)
  unfolding create_file take_file silence restore
  create_file-Held f o h e = ground (arith, e, objects.f_create-opens f o h.system)

  pub open_file-Held : (f : Text) (r : Bool) (h : H5 S) → Held h → OkHeld (open_file lib f r h)
  unfolding open_file take_file silence restore
  open_file-Held f r h e = ground (arith, e, objects.f_open-opens f r h.system)

  pub file_exists-Held : (f : Text) (h : H5 S) → Held h → Held (file_exists lib f h).1
  unfolding file_exists silence restore
  file_exists-Held f h e =
      let (id, s) = lib.f_open f true h.system in
      ground (
        arith,
        e,
        objects.f_open-opens f true h.system,
        objects.f_close-closes id s,
        count-remove i id (objects.open_ids s),
        beq_ℤ_iff id i,
        beq_ℤ_iff id id,
      )

  pub group_create-Held :
      (g : Text) (h : H5 S) → Held h → OkHeld (group_create lib g h >>= (λ r. ok r.1))
  unfolding group_create is_group_open
  group_create-Held g h e =
      let (id, s) = lib.g_create h.file_id g h.system in
      elim (Option-cases (find g h.group_ids)) [
        | inl fresh ↦ ground (
          arith,
          e,
          fresh,
          objects.g_create-opens h.file_id g h.system,
          objects.g_set_comment-opens h.file_id g s,
          count_values-insert i id g h.group_ids,
        )
        | inr (j, known) ↦ ground (arith, e, known)
      ]

  pub group_open-Held : (g : Text) (h : H5 S) → Held h → OkHeld (group_open lib g h)
  unfolding group_open is_group_open silence restore
  group_open-Held g h e =
      let (id, s) = lib.g_open h.file_id g h.system in
      elim (Option-cases (find g h.group_ids)) [
        | inl fresh ↦ ground (
          arith,
          e,
          fresh,
          objects.g_open-opens h.file_id g h.system,
          count_values-insert i id g h.group_ids,
        )
        | inr (j, known) ↦ ground (arith, e, known)
      ]
