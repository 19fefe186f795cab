-- ===== src/History/Packets.antt =====
-- The packet that AppendHistData of src/grvy_timer.cpp writes.
use mathlib.Core.Path.{subst}
use grvy.Base.{
  ℕ, ◌+◌, ◌-◌, Bool, true, false, none, some, List, [], ◌∷◌, length, ◌==◌, ◌≡◌, refl, if◌then◌else◌,
  Result, ok, assert_failed, ◌>>◌, guard, arith, Bool-cases, inl, inr,
}
use grvy.Base.Map.{find, Unique}
use grvy.Base.Int.{ℤ}
use grvy.Base.Text.{Text, text_beq, text_key, text_beq_iff}
use grvy.Timer.Types.{Accumulators, timer_mean, timer_variance, TimerData, Timer}
use grvy.Timer.Calls.{gtimer}
use grvy.Timer.Queries.{stats_count, stats_exclusive, elapsed_seconds}
use grvy.History.Types.{SubTimer, Packet, Arguments}

module _ {A : Type 0} (acc : Accumulators A) (clock : ℕ → ℤ) where
  -- The loop over the timers. `timer_name` points to a copy of the name that ends with its round of
  -- the loop, so what is there when the packet is written is left undefined: `stale` of the name.
  unfoldable pub sub_timers : (Text → Text) → Timer A → List (Text × TimerData A) → List SubTimer
  sub_timers stale s [] = []
  sub_timers stale s ((id, d) ∷ m) =
      let rest = sub_timers stale s m in
      if text_beq id gtimer
      then rest
      else record {
        timer_name = stale id;
        measurement = elapsed_seconds acc clock id true s;
        mean = stats_exclusive acc clock id timer_mean s;
        variance = stats_exclusive acc clock id timer_variance s;
        count = stats_count acc clock id s;
      }
        ∷ rest

  -- The number of timers that the packet has room for. A map without timers would give the largest
  -- size_t; the constructor has put the global timer there.
  abbrev pub num_subtimers : Bool → Timer A → ℕ
  num_subtimers save_internal_timers s = if save_internal_timers then length s.timer_map - 1 else 0

  sub_timers-length :
      (stale : Text → Text) (s : Timer A) (m : List (Text × TimerData A))
      → Unique m
      → length (sub_timers stale s m) + (elim (find gtimer m) [ none ↦ 0 | some d ↦ 1 ]) ≡ length m
  unfolding sub_timers find
  sub_timers-length stale s [] u = refl
  sub_timers-length stale s ((id, d) ∷ m) (fresh, u) = elim (Bool-cases (text_beq id gtimer)) [
    | inr other ↦ ground (arith, other, sub_timers-length stale s m u)
    | inl same ↦
        let none_later : find gtimer m ≡ none =
          subst (λ t. find t m ≡ none) ((text_beq_iff id gtimer).0 same) fresh in
        ground (arith, same, none_later, sub_timers-length stale s m u)
  ]

module _ {A F : Type 0} (acc : Accumulators A) (clock : ℕ → ℤ) where
  -- The header, with the timers.
  abbrev pub packet_header : Arguments F → Bool → Bool → Timer A → List SubTimer → Packet F
  packet_header args save_internal_timers output_printenv s subtimers = record {
    experiment = args.experiment;
    timestamp = args.timestamp;
    user_comment = args.comment;
    total_time =
        if save_internal_timers then elapsed_seconds acc clock gtimer true s else args.timing;
    num_procs = args.num_procs;
    job_id = args.job_id;
    code_revision = args.code_revision;
    flops = args.flops;
    env_variables = if output_printenv then args.environment else [];
    subtimers = subtimers;
  }

  -- The packet, up to the assertion on the number of timers in it, which is made when the internal
  -- timers are saved.
  unfoldable pub packet_of : Arguments F → Bool → Bool → Timer A → Result (Packet F)
  packet_of args save_internal_timers output_printenv s =
      let subtimers = sub_timers acc clock args.stale_name s s.timer_map in
      let packet = packet_header args save_internal_timers output_printenv s in
      if save_internal_timers
      then (guard (length subtimers == num_subtimers acc clock true s) assert_failed
          >> ok (packet subtimers))
      else ok (packet [])

  -- With the global timer in the map and no name there twice, the assertion on the number of timers
  -- holds: there is a packet, with an entry for every timer but the global one if the internal timers
  -- are saved and the time of the global timer as its total, and without entries otherwise, with the
  -- time that was passed.
  pub packet_of-fits :
      (args : Arguments F) (save_internal_timers output_printenv : Bool) (s : Timer A)
      (d : TimerData A)
      → Unique s.timer_map
      → find gtimer s.timer_map ≡ some d
      → (p : Packet F) × (packet_of args save_internal_timers output_printenv s ≡ ok p)
        × (length p.subtimers + 1 ≡ (if save_internal_timers then length s.timer_map else 1))
        × (p.total_time ≡ (
            if save_internal_timers then elapsed_seconds acc clock gtimer true s else args.timing))
  unfolding packet_of
  packet_of-fits args false output_printenv s d u h = (_, refl, refl, refl)
  packet_of-fits args true output_printenv s d u h =
      let subtimers = sub_timers acc clock args.stale_name s s.timer_map in
      let sizes = sub_timers-length acc clock args.stale_name s s.timer_map u in
      (
        packet_header args true output_printenv s subtimers,
        ground (arith, h, sizes),
        ground (arith, h, sizes),
        refl,
      )
