-- ===== src/History/Statistics.antt =====
-- What SummarizeHistTiming of src/grvy_timer.cpp computes over the packets of a host. A sample's time
-- is finite: none stands for HUGE_VAL and -HUGE_VAL.
pub mod Extremes
pub mod Bounds
use grvy.Base.{
  ℕ, suc, ◌+◌, Bool, true, false, Option, none, some, List, [], ◌∷◌, length, if◌then◌else◌,
}
use grvy.Base.Map.{find, insert, modify}
use grvy.Base.Int.{ℤ, pos, ltb_ℤ}
use grvy.Base.Text.{Text, text_key}
use grvy.Timer.Types.{Accumulators}
use grvy.Timer.Summary.{max}
use grvy.History.Types.{SubTimer, Packet}

-- `grvy_minmax`: a time and the index of its packet.
abbrev pub MinMax : Type 0
MinMax = Option (ℤ × ℕ)

-- The maps by the names of experiments, and the widths of columns.
pub record Statistics (A : Type 0) : Type 0 where
  pub statistics : List (Text × A)
  pub max_vals : List (Text × MinMax)
  pub min_vals : List (Text × MinMax)
  pub max_revision_width : ℕ
  pub max_comment_width : ℕ
  pub max_env_width : ℕ

abbrev pub no_statistics : {A : Type 0} → Statistics A
no_statistics = record {
  statistics = [];
  max_vals = [];
  min_vals = [];
  max_revision_width = 0;
  max_comment_width = 0;
  max_env_width = 0;
}

-- The value of `min_vals[experiment]` and of `max_vals[experiment]`.
abbrev pub value_at : Text → List (Text × MinMax) → MinMax
value_at e m = elim (find e m) [ none ↦ none | some x ↦ x ]

-- Is the time on the one side of the value? Every time is on that side of no bound.
abbrev pub better : (ℤ → ℤ → Bool) → ℤ → MinMax → Bool
better less t none = true
better less t (some (v, i)) = less t v

abbrev pub greater : ℤ → ℤ → Bool
greater t v = ltb_ℤ v t

unfoldable pub min_check : Text → ℤ → ℕ → List (Text × MinMax) → List (Text × MinMax)
min_check e t i m = if better ltb_ℤ t (value_at e m) then insert e (some (t, i)) m else m

unfoldable pub max_check : Text → ℤ → ℕ → List (Text × MinMax) → List (Text × MinMax)
max_check e t i m = if better greater t (value_at e m) then insert e (some (t, i)) m else m

-- A new experiment gets no bounds in both maps.
abbrev pub first_seen : Text → List (Text × MinMax) → List (Text × MinMax) → List (Text × MinMax)
first_seen e seen m = elim (find e seen) [ none ↦ insert e none m | some x ↦ m ]

-- The largest length of a text, with one that is there.
abbrev pub widest : List Text → ℕ → ℕ
widest [] w = w
widest (t ∷ ts) w = widest ts (max (length t) w)

module _ {A : Type 0} (acc : Accumulators A) where
  -- `statistics[experiment](runtime)`.
  abbrev pub accumulate : Text → ℤ → List (Text × A) → List (Text × A)
  accumulate e t m = elim (find e m) [
    | none ↦ insert e (acc.add acc.empty t) m
    | some a ↦ insert e (acc.add a t) m
  ]

module _ {A F : Type 0} (acc : Accumulators A) (output_comments output_env : Bool) where
  -- One round of the loop, for packet i. The comments' width grows with each packet.
  unfoldable pub add_packet : ℕ → Packet F → Statistics A → Statistics A
  add_packet i p st =
      let e = p.experiment in
      record st {
        statistics = accumulate acc e p.total_time st.statistics;
        min_vals = min_check e p.total_time i (first_seen e st.max_vals st.min_vals);
        max_vals = max_check e p.total_time i (first_seen e st.max_vals st.max_vals);
        max_revision_width = max (length p.code_revision) st.max_revision_width;
        max_comment_width =
            if output_comments
            then max (length p.user_comment) st.max_comment_width + 2
            else st.max_comment_width;
        max_env_width =
            if output_env then widest p.env_variables st.max_env_width else st.max_env_width;
      }

  -- The loop over the packets from the i-th.
  unfoldable pub add_packets : ℕ → List (Packet F) → Statistics A → Statistics A
  add_packets i [] st = st
  add_packets i (p ∷ ps) st = add_packets (i + 1) ps (add_packet i p st)

-- The map of all names of subtimers: of all packets, whatever their experiment.
unfoldable pub sub_names : List SubTimer → List (Text × ℤ) → List (Text × ℤ)
sub_names [] m = m
sub_names (t ∷ ts) m =
    sub_names ts (elim (find t.timer_name m) [ none ↦ insert t.timer_name (pos 0) m | some x ↦ m ])

unfoldable pub aggregate_subtimers :
    {F : Type 0} → List (Packet F) → List (Text × ℤ) → List (Text × ℤ)
aggregate_subtimers [] m = m
aggregate_subtimers (p ∷ ps) m = aggregate_subtimers ps (sub_names p.subtimers m)

-- The row of a packet: all columns 0, and its own subtimers at their names.
unfoldable pub set_map_constant_value : ℤ → List (Text × ℤ) → List (Text × ℤ)
set_map_constant_value v [] = []
set_map_constant_value v ((k, x) ∷ m) = (k, v) ∷ set_map_constant_value v m

unfoldable pub put_measurements : List SubTimer → List (Text × ℤ) → List (Text × ℤ)
put_measurements [] m = m
put_measurements (t ∷ ts) m = put_measurements ts (insert t.timer_name t.measurement m)

abbrev pub sub_row : {F : Type 0} → Packet F → List (Text × ℤ) → List (Text × ℤ)
sub_row p m = put_measurements p.subtimers (set_map_constant_value (pos 0) m)
