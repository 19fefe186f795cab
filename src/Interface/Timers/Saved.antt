-- ===== src/Interface/Timers/Saved.antt =====
-- The C functions grvy_timer_save_hist and its three variants of src/grvy_timer_interface.cpp, after
-- any other calls of the C functions for timers.
use grvy.Base.{
  ℕ, ◌+◌, Bool, true, Option, none, some, List, length, ◌≡◌, refl, if◌then◌else◌, Result, ok, ◌>>=◌,
  arith, Option-cases, inl, inr,
}
use grvy.Base.Map.{find}
use grvy.Base.Int.{ℤ}
use grvy.Base.Text.{Text, text_key}
use grvy.Timer.Types.{Accumulators, Timer}
use grvy.Timer.Calls.{gtimer}
use grvy.Timer.Queries.{elapsed_seconds}
use grvy.Hdf5.Library.{Library}
use grvy.Hdf5.Types.{H5}
use grvy.History.Types.{Packet, Value, TableCalls, Arguments}
use grvy.History.Packets.{packet_of, packet_of-fits}
use grvy.History.Entries.{
  Surroundings, Run, Job, default_job, save_internal, save_internal_exp, save_external,
  save_external_exp,
}
use grvy.Interface.Timers.{verify_timer_allocated}
use grvy.Interface.Timers.Keys.{c_timer_calls-keys}
use grvy.Interface.Timers.Programs.{TimerCall, TimerAnswer, c_timer_calls}

module _ {A S F : Type 0} (acc : Accumulators A) (clock : ℕ → ℤ) (lib : Library S Value)
    (calls : TableCalls S (Packet F)) (env : Surroundings F) where
  -- `grvy_timer_save_hist`.
  unfoldable pub timer_save_hist : Run → Option (Timer A) → H5 S → Result (Option (Timer A) × H5 S)
  unfolding verify_timer_allocated
  timer_save_hist run p h = do
    s ← verify_timer_allocated acc clock p
    h' ← save_internal acc clock lib calls env run s h
    ok (some s, h')

  -- `grvy_timer_save_hist_exp`.
  unfoldable pub timer_save_hist_exp :
      Run → Job F → Option (Timer A) → H5 S → Result (Option (Timer A) × H5 S)
  unfolding verify_timer_allocated
  timer_save_hist_exp run job p h = do
    s ← verify_timer_allocated acc clock p
    h' ← save_internal_exp acc clock lib calls env run job s h
    ok (some s, h')

  -- `grvy_timer_save_hist_ext`.
  unfoldable pub timer_save_hist_ext :
      ℤ → Text → Run → Option (Timer A) → H5 S → Result (Option (Timer A) × H5 S)
  unfolding verify_timer_allocated
  timer_save_hist_ext timing machinename run p h = do
    s ← verify_timer_allocated acc clock p
    h' ← save_external acc clock lib calls env timing machinename run s h
    ok (some s, h')

  -- `grvy_timer_save_hist_ext_exp`.
  unfoldable pub timer_save_hist_ext_exp :
      ℤ → Text → Run → Job F → Option (Timer A) → H5 S → Result (Option (Timer A) × H5 S)
  unfolding verify_timer_allocated
  timer_save_hist_ext_exp timing machinename run job p h = do
    s ← verify_timer_allocated acc clock p
    h' ← save_external_exp acc clock lib calls env timing machinename run job s h
    ok (some s, h')

module _ {A S F : Type 0} (acc : Accumulators A) (clock : ℕ → ℤ) (lib : Library S Value)
    (calls : TableCalls S (Packet F)) (env : Surroundings F) where
  -- The short versions are the expanded ones with the defaults of the class.
  timer_save_hist-default :
      (run : Run) (p : Option (Timer A)) (h : H5 S)
      → timer_save_hist acc clock lib calls env run p h
        ≡ timer_save_hist_exp acc clock lib calls env run (default_job env) p h
  unfolding timer_save_hist timer_save_hist_exp save_internal save_internal_exp
  timer_save_hist-default run p h = refl

  timer_save_hist_ext-default :
      (timing : ℤ) (machinename : Text) (run : Run) (p : Option (Timer A)) (h : H5 S)
      → timer_save_hist_ext acc clock lib calls env timing machinename run p h
        ≡ timer_save_hist_ext_exp acc clock lib calls env timing machinename run
            (default_job env)
            p
            h
  unfolding timer_save_hist_ext timer_save_hist_ext_exp save_external save_external_exp
  timer_save_hist_ext-default timing machinename run p h = refl

module _ {A F : Type 0} (acc : Accumulators A) (clock : ℕ → ℤ) where
  -- Whatever calls of the C functions for timers a program has made, when they have returned, the packet
  -- that the C functions for historical timings then put together exists: the assertion on the number
  -- of timers in it holds. With the timers of the program it has one entry less than there are timers,
  -- and the time of the global timer as its total; with a time that is given it has no entry, and that
  -- time as its total.
  pub packet_of-c_timer_calls :
      (cs : List TimerCall) (answers : List TimerAnswer) (p : Option (Timer A)) (s : Timer A)
      → c_timer_calls acc clock cs none ≡ ok (answers, p)
      → verify_timer_allocated acc clock p ≡ ok s
      → (args : Arguments F) (save_internal_timers output_printenv : Bool)
      → (packet : Packet F) × (packet_of acc clock args save_internal_timers output_printenv s
          ≡ ok packet)
        × (length packet.subtimers + 1 ≡ (if save_internal_timers then length s.timer_map else 1))
        × (packet.total_time ≡ (
            if save_internal_timers then elapsed_seconds acc clock gtimer true s else args.timing))
  packet_of-c_timer_calls cs answers p s e g args save_internal_timers output_printenv =
      let (unique, global) = c_timer_calls-keys acc clock cs answers p s e g in
      elim (Option-cases (find gtimer s.timer_map)) [
        | inl none_there ↦ absurd (ground (arith, global, none_there))
        | inr (d, there) ↦
            packet_of-fits acc clock args save_internal_timers output_printenv s d unique there
      ]
