-- ===== src/History/Leaves.antt =====
-- What SaveHistTiming of src/grvy_timer.cpp leaves of the HDF5 library's state and of its own object.
use grvy.Base.{
  ℕ, Bool, true, false, ◌++◌, ◌≡◌, inl, inr, Result, ok, fail, ◌>>=◌, arith, Bool-cases,
  Result-cases, ◌+◌,
}
use grvy.Base.Int.{ℤ}
use grvy.Base.Text.{Text, bytes}
use grvy.Timer.Types.{Accumulators, Timer}
use grvy.Hdf5.Library.{is_negative, Library}
use grvy.Hdf5.Types.{H5, with_system}
use grvy.Hdf5.Files.{close_file, file_exists}
use grvy.Hdf5.Objects.{group_exists, dataset_exists}
use grvy.Hdf5.Attributes.{attribute_read}
use grvy.Hdf5.Handler.{
  Call, create_new, open_existing, exists, create_group, test_group, open_group, test_dataset,
  open_dataset, read_attribute, write_attribute, write_string, HandlerKept, call, call-Kept,
}
use grvy.History.Types.{Packet, Value, number, string, TableCalls, Arguments}
use grvy.History.Tables.{num_measurements, number_read, append_packet, extend, save_packet}
use grvy.History.Packets.{packet_of}
use grvy.History.Save.{
  ptable_version, open_host_table, described_table, open_or_create, group_or_create, open_table,
  write_attributes, save_hist_timing,
}

module _ {S : Type 0} where
  -- Where the code returns, the error handler is as it was.
  abbrev pub Same : H5 S → Result (H5 S) → Type 0
  Same h (ok h') = h'.handler ≡ h.handler
  Same h (fail e) = Unit

  Same-Kept : (h : H5 S) (r : Result (H5 S)) → HandlerKept h r → Same h r
  Same-Kept h (ok h') k = k
  Same-Kept h (fail e) k = tt

  Same-bind :
      (h : H5 S) (r : Result (H5 S)) (f : H5 S → Result (H5 S))
      → Same h r
      → ((o : H5 S) → Same o (f o))
      → Same h (r >>= f)
  Same-bind h (fail e) f k step = tt
  Same-bind h (ok o) f k step = elim (Result-cases (f o)) [
    | inl (h', e) ↦ ground (arith, e, k, step o)
    | inr (x, e) ↦ ground (arith, e)
  ]

module _ {S : Type 0} (lib : Library S Value) where
  call-Same : (c : Call Value) (h : H5 S) → Same h (call lib c h)
  call-Same c h = Same-Kept h (call lib c h) (call-Kept lib c h)

  open_or_create-Same : (f : Text) (h : H5 S) → Same h (open_or_create lib f h)
  open_or_create-Same f h =
      let h' = (file_exists lib f h).1 in
      ground (
        arith,
        call-Same (exists f) h,
        call-Same (open_existing f false) h',
        call-Same (create_new f false) h',
      )

  group_or_create-Same : (g : Text) (h : H5 S) → Same h (group_or_create lib g h)
  group_or_create-Same g h =
      let h' = (group_exists lib g h).1 in
      ground (
        arith,
        call-Same (test_group g) h,
        call-Same (open_group g) h',
        call-Same (create_group g) h',
      )

module _ {S P : Type 0} (lib : Library S Value) (calls : TableCalls S P) where
  open_table-Same : (g : Text) (h : H5 S) → Same h (open_table lib calls g h >>= (λ r. ok r.2))
  open_table-Same g h =
      let h' = (dataset_exists lib g (bytes "PTable") h).1 in
      ground (
        arith,
        call-Same lib (test_dataset g (bytes "PTable")) h,
        call-Same lib (open_dataset g (bytes "PTable")) h',
      )

  extend-Same : (t : ℤ) (n : ℕ) (h : H5 S) → (extend lib calls t n h).handler ≡ h.handler
  extend-Same t n h = ground arith

  save_packet-Same :
      (g : Text) (t : ℤ) (p : Result P) (h : H5 S) → Same h (save_packet lib calls g t p h)
  unfolding save_packet append_packet
  save_packet-Same g t p h = elim (Result-cases (attribute_read lib g num_measurements h)) [
    | inr (x, e) ↦ ground (arith, e)
    | inl ((code, value, r), e) ↦
        let kept : r.handler ≡ h.handler =
          ground (arith, e, call-Same lib (read_attribute g num_measurements) h) in
        elim (Result-cases (number_read value)) [
          | inr (x, e1) ↦ ground (arith, e, e1)
          | inl (n, e1) ↦ elim (Result-cases p) [
            | inr (x, e2) ↦ ground (arith, e, e1, e2)
            | inl (q, e2) ↦
                let w = with_system (calls.d_write t n q r.system).1 r in
                ground (
                  arith,
                  e,
                  e1,
                  e2,
                  kept,
                  call-Same lib (write_attribute g num_measurements (number (n + 1))) w,
                )
          ]
        ]
  ]

module _ {S F : Type 0} (lib : Library S Value) where
  write_attributes-Same :
      (g : Text) (args : Arguments F) (h : H5 S) → Same h (write_attributes lib g args h)
  write_attributes-Same g args h =
      let put = λ (a : Text) (t : Text) (o : H5 S). call-Same lib (write_string g a (string t)) o in
      let c1 =
        call-Same lib (write_attribute g (bytes "format_version") (number ptable_version)) h in
      let c2 = Same-bind h _ _ c1 (put (bytes "os_sysname") args.os_sysname) in
      let c3 = Same-bind h _ _ c2 (put (bytes "os_release") args.os_release) in
      let c4 = Same-bind h _ _ c3 (put (bytes "os_version") args.os_version) in
      let c5 = Same-bind h _ _ c4 (put (bytes "cputype") args.cputype) in
      Same-bind h _ _ c5 (λ o. call-Same lib (write_attribute g num_measurements (number 0)) o)

module _ {S P F : Type 0} (lib : Library S Value) (calls : TableCalls S P) where
  described_table-Same :
      (g : Text) (args : Arguments F) (h : H5 S)
      → Same h (described_table lib calls g args h >>= (λ r. ok r.1))
  described_table-Same g args h = elim (Result-cases (open_table lib calls g h)) [
    | inr (x, e) ↦ ground (arith, e)
    | inl ((new, id, t), e) ↦
        ground (arith, e, open_table-Same lib calls g h, write_attributes-Same lib g args t)
  ]

  open_host_table-Same :
      (top host : Text) (args : Arguments F) (filename : Text) (h : H5 S)
      → Same h (open_host_table lib calls top host args filename h >>= (λ r. ok r.1))
  unfolding open_host_table
  open_host_table-Same top host args filename h =
      elim (Result-cases (open_or_create lib filename h)) [
        | inr (x, e) ↦ ground (arith, e)
        | inl (opened, e) ↦ elim (Result-cases (group_or_create lib top opened)) [
          | inr (x, e1) ↦ ground (arith, e, e1)
          | inl (above, e1) ↦ elim (Result-cases (group_or_create lib host above)) [
            | inr (x, e2) ↦ ground (arith, e, e1, e2)
            | inl (inside, e2) ↦ ground (
              arith,
              e,
              e1,
              e2,
              open_or_create-Same lib filename h,
              group_or_create-Same lib top opened,
              group_or_create-Same lib host above,
              described_table-Same host args inside,
            )
          ]
        ]
      ]

module _ {A S F : Type 0} (acc : Accumulators A) (clock : ℕ → ℤ) (lib : Library S Value)
    (calls : TableCalls S (Packet F)) where
  -- What holds where SaveHistTiming returns: the handler is as it was, and the object has
  -- no identifier of a file.
  abbrev pub Closed : H5 S → Result (H5 S) → Type 0
  Closed h (ok h') = (h'.handler ≡ h.handler) × (is_negative h'.file_id ≡ true)
  Closed h (fail e) = Unit

  close_file-Closed :
      (h o : H5 S) (t : ℤ)
      → o.handler ≡ h.handler
      → Closed h (ok (close_file lib (with_system (calls.d_close t o.system) o)))
  unfolding close_file
  close_file-Closed h o t e = elim (Bool-cases (is_negative o.file_id)) [
    | inl b ↦ (ground (arith, b, e), ground (arith, b))
    | inr b ↦ (ground (arith, b, e), ground (arith, b))
  ]

  -- SaveHistTiming either stops with a fault, or returns with the HDF5 library's error handler as it
  -- was and with no identifier of a file in its object.
  pub save_hist_timing-Closed :
      (args : Arguments F) (filename : Text) (save_internal_timer output_printenv : Bool)
      (s : Timer A) (h : H5 S)
      → Closed h (
          save_hist_timing acc clock lib calls args filename save_internal_timer output_printenv s
            h)
  unfolding save_hist_timing
  save_hist_timing-Closed args filename save env s h =
      let top = bytes "GRVY/Performance_timings/" in
      let host = top ++ args.machinename in
      let packet = packet_of acc clock args save env s in
      elim (Result-cases (open_host_table lib calls top host args filename h)) [
        | inr (x, e) ↦ ground (arith, e)
        | inl ((id, ready), e) ↦ elim (Result-cases (save_packet lib calls host id packet ready)) [
          | inr (x, e1) ↦ ground (arith, e, e1)
          | inl (saved, e1) ↦
              let kept : saved.handler ≡ h.handler = ground (
                arith,
                e,
                e1,
                open_host_table-Same lib calls top host args filename h,
                save_packet-Same lib calls host id packet ready,
              ) in
              ground (arith, e, e1, close_file-Closed h saved id kept)
        ]
      ]
