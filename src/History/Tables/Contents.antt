-- ===== src/History/Tables/Contents.antt =====
-- What a table of src/grvy_timer.cpp contains, and its extension by chunks.
use grvy.Base.{
  ℕ, ◌+◌, ◌*◌, ◌<◌, ◌≤◌, ◌%◌, false, Option, some, List, [], ◌∷◌, ◌++◌, length, ◌==◌, ◌≡◌, refl,
  ◌∙◌, ap, inl, inr, if◌then◌else◌, ok, arith, Bool-cases, ==_iff,
}
use grvy.Base.Map.{find}
use grvy.Base.Int.{ℤ, pos}
use grvy.Base.Text.{Text, text_key}
use grvy.Hdf5.Library.{is_negative, Library}
use grvy.Hdf5.Types.{H5}
use grvy.Hdf5.Values.{Attributes, Stores}
use grvy.History.Types.{Value, number, TableCalls}
use grvy.History.Tables.{perf_hist_chunksize, num_measurements, extend, read_packets}
use grvy.History.Tables.Frames.{Untouched}

-- The elements of an open table, and how many there is room for.
pub record Table (P : Type 0) : Type 0 where
  pub extent : ℕ
  pub cell : ℕ → Option P

-- What is documented of tables: elements within the extent can be written and, once written, read;
-- an extension keeps them; tables and attributes are apart; and
-- the number of measurements can be stored in its attribute.
pub record Tables {S P : Type 0} {lib : Library S Value} (attributes : Attributes lib)
    (calls : TableCalls S P) : Type 0 where
  pub table : ℤ → S → Table P
  pub untouched : (t : ℤ) → Untouched lib (table t)
  pub write-fits :
      (t : ℤ) (n : ℕ) (p : P) (s : S)
      → n < (table t s).extent
      → is_negative (calls.d_write t n p s).0 ≡ false
  pub write-cell :
      (t : ℤ) (n m : ℕ) (p : P) (s : S)
      → n < (table t s).extent
      → (table t (calls.d_write t n p s).1).cell m ≡ (if n == m then some p else (table t s).cell m)
  pub write-extent :
      (t : ℤ) (n : ℕ) (p : P) (s : S)
      → (table t (calls.d_write t n p s).1).extent ≡ (table t s).extent
  pub read-cell :
      (t : ℤ) (n : ℕ) (p : P) (s : S)
      → (table t s).cell n ≡ some p
      → calls.d_read t n s ≡ (pos 0, some p)
  pub set_extent-cell :
      (t : ℤ) (e m : ℕ) (s : S)
      → m < e
      → (table t (calls.d_set_extent t e s)).cell m ≡ (table t s).cell m
  pub set_extent-extent : (t : ℤ) (e : ℕ) (s : S) → (table t (calls.d_set_extent t e s)).extent ≡ e
  pub number-stored : (g : ℤ) (n : ℕ) → Stores attributes g num_measurements (number n)
  pub write-value :
      (t g : ℤ) (a : Text) (n : ℕ) (p : P) (s : S)
      → attributes.value g a (calls.d_write t n p s).1 ≡ attributes.value g a s
  pub set_extent-value :
      (t g : ℤ) (a : Text) (e : ℕ) (s : S)
      → attributes.value g a (calls.d_set_extent t e s) ≡ attributes.value g a s

module _ {S P : Type 0} {lib : Library S Value} {attributes : Attributes lib}
    {calls : TableCalls S P} (tables : Tables attributes calls) where
  -- The table has the packets from an index on.
  abbrev pub Has : ℤ → List P → ℕ → S → Type 0
  Has t [] i s = Unit
  Has t (p ∷ ps) i s = ((tables.table t s).cell i ≡ some p) × Has t ps (i + 1) s

  pub read_packets-Has :
      (t : ℤ) (ps : List P) (i : ℕ) (s : S)
      → Has t ps i s
      → read_packets lib calls t (length ps) i s ≡ ok ps
  unfolding read_packets
  read_packets-Has t [] i s h = refl
  read_packets-Has t (p ∷ ps) i s (h, hs) =
      ground (arith, tables.read-cell t i p s h, read_packets-Has t ps (i + 1) s hs)

  pub Has-same :
      (t : ℤ) (ps : List P) (i e : ℕ) (s s' : S)
      → ((m : ℕ) → m < e → (tables.table t s').cell m ≡ (tables.table t s).cell m)
      → i + length ps ≤ e
      → Has t ps i s
      → Has t ps i s'
  Has-same t [] i e s s' same le h = tt
  Has-same t (p ∷ ps) i e s s' same le (h, hs) =
      (ground (arith, h, same i), Has-same t ps (i + 1) e s s' same (omega (arith, le)) hs)

  pub Has-append :
      (t : ℤ) (ps : List P) (p : P) (i : ℕ) (s : S)
      → Has t ps i s
      → (tables.table t s).cell (i + length ps) ≡ some p
      → Has t (ps ++ p ∷ []) i s
  Has-append t [] p i s h e = (ground (arith, e), tt)
  Has-append t (q ∷ ps) p i s (h, hs) e = (h, Has-append t ps p (i + 1) s hs (ground (arith, e)))

  -- The table has whole chunks, and room for the next packet.
  abbrev pub Room : ℕ → ℕ → Type 0
  Room n extent =
      (k : ℕ) × (extent ≡ perf_hist_chunksize * k)
      × (n < extent)
      × (extent ≤ n + perf_hist_chunksize)

  -- The extension keeps the packets, and makes room.
  pub extend-Has :
      (t : ℤ) (ps : List P) (h : H5 S)
      → Has t ps 0 h.system
      → Has t ps 0 (extend lib calls t (length ps) h).system
  extend-Has t ps h has = elim (Bool-cases (length ps % perf_hist_chunksize == 0)) [
    | inr e ↦ rw e has
    | inl e ↦ rw e (
        Has-same t ps 0 (length ps) h.system
          (calls.d_set_extent t (length ps + perf_hist_chunksize) h.system)
          (λ m l.
            tables.set_extent-cell t (length ps + perf_hist_chunksize) m h.system
              (omega (arith, l)))
          (omega arith) has)
  ]

  pub extend-Room :
      (t : ℤ) (n : ℕ) (h : H5 S)
      → Room n (tables.table t h.system).extent
      → Room (n + 1) (tables.table t (extend lib calls t (n + 1) h).system).extent
  extend-Room t n h (k, e, l, u) =
      let reached = ==_iff ((n + 1) % perf_hist_chunksize) 0 in
      elim (Bool-cases ((n + 1) % perf_hist_chunksize == 0)) [
        | inl b ↦
            let new_extent = tables.set_extent-extent t (n + 1 + perf_hist_chunksize) h.system in
            let boundary : (n + 1) % 100 ≡ 0 = reached.0 b in
            rw b (
              k + 1,
              new_extent ∙ omega (arith, e, l, u, boundary),
              omega (arith, new_extent),
              omega (arith, new_extent),
            )
        | inr b ↦
            let inside : ((n + 1) % 100 ≡ 0) → ⊥ = λ q. ground (arith, b, reached.1 q) in
            rw b (k, e, omega (arith, e, l, u, inside), omega (arith, e, l, u))
      ]

  pub Has-table :
      (t : ℤ) (ps : List P) (i : ℕ) (s s' : S)
      → tables.table t s' ≡ tables.table t s
      → Has t ps i s
      → Has t ps i s'
  Has-table t [] i s s' e h = tt
  Has-table t (p ∷ ps) i s s' e (h, hs) =
      (ap (λ x. x.cell i) e ∙ h, Has-table t ps (i + 1) s s' e hs)

  -- The state after the new number of measurements has been written.
  abbrev pub Counted : Text → ℤ → ℕ → H5 S → Type 0
  Counted host g n h =
      (is_negative h.file_id ≡ false)
      × (find host h.group_ids ≡ some g)
      × (attributes.value g num_measurements h.system ≡ some (number n))

  pub extend-Counted :
      (host : Text) (g t : ℤ) (n : ℕ) (k : ℕ) (h : H5 S)
      → Counted host g k h
      → Counted host g k (extend lib calls t n h)
  extend-Counted host g t n k h (on, known, value) =
      elim (Bool-cases (n % perf_hist_chunksize == 0)) [
        | inr b ↦ rw b (on, known, value)
        | inl b ↦ rw b (
          on,
          known,
          tables.set_extent-value t g num_measurements (n + perf_hist_chunksize) h.system ∙ value,
        )
      ]
