-- ===== src/Log/Calls.antt =====
-- GRVY_Log_Class of src/grvy_classes.cpp and src/grvy_classes.h, and the calls of
-- src/grvy_log.cpp that go through it.
use grvy.Base.{Bool, not, none, some, List, [], ◌∷◌, ◌++◌, if◌then◌else◌}
use grvy.Base.Map.{find, insert}
use grvy.Base.Int.{ℤ, pos, negsuc, ltb_ℤ, int_key}
use grvy.Base.Text.{Text}

-- The state, and what has been written to the standard output so far.
pub record Log : Type 0 where
  pub log_level : ℤ
  pub log_mask : List (ℤ × Text)
  pub output : Text

abbrev pub grvy_nolog : ℤ
grvy_nolog = negsuc 0

abbrev pub grvy_info : ℤ
grvy_info = pos 300

-- The constructor: one empty mask for each priority.
abbrev pub new_log : Log
new_log = record {
  log_level = grvy_info;
  log_mask = (pos 0, []) ∷ (pos 100, []) ∷ (pos 200, []) ∷ (pos 300, []) ∷ (pos 400, []) ∷ [];
  output = [];
}

-- `isLog`.
abbrev pub is_log : ℤ → Log → Bool
is_log priority l = not (ltb_ℤ l.log_level priority)

abbrev pub change_priority : ℤ → Log → Log
change_priority priority l = record l { log_level = priority }

abbrev pub change_mask : ℤ → Text → Log → Log
change_mask priority delimiter l = record l { log_mask = insert priority delimiter l.log_mask }

-- The value of `LogMask[priority]`.
unfoldable pub mask_of : ℤ → Log → Text
mask_of priority l = elim (find priority l.log_mask) [ none ↦ [] | some mask ↦ mask ]

-- The map after `LogMask[priority]` has been read: a missing mask is put there, empty.
unfoldable pub touch_mask : ℤ → Log → Log
touch_mask priority l = elim (find priority l.log_mask) [
  | none ↦ record l { log_mask = insert priority [] l.log_mask }
  | some _ ↦ l
]

-- Text written to the standard output.
abbrev pub write_out : Text → Log → Log
write_out text l = record l { output = l.output ++ text }

-- `msg`, with the end of the line.
unfoldable pub msg : ℤ → Text → Log → Log
msg priority text l =
    if is_log priority l
    then write_out (text ++ 10 ∷ []) (write_out (mask_of priority l) (touch_mask priority l))
    else l

-- `msg_printf`, given the text that vprintf writes and the value that it returns.
unfoldable pub msg_printf : ℤ → Text → ℤ → Log → ℤ × Log
msg_printf priority text done l =
    (done, write_out text (write_out (mask_of priority l) (touch_mask priority l)))

-- `grvy_printf`.
unfoldable pub grvy_printf : ℤ → Text → ℤ → Log → ℤ × Log
grvy_printf loglevel text done l =
    if is_log loglevel l then msg_printf loglevel text done l else (pos 0, l)
