-- ===== src/History/Tables/Appended.antt =====
-- What SaveHistTiming of src/grvy_timer.cpp appends, read back by ReadAllHostData.
use grvy.Base.Text.{Text, text_key}
use grvy.Hdf5.Library.{Library}
use grvy.History.Tables.Contents.{Tables}
