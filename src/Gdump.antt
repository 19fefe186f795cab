-- ===== src/Gdump.antt =====
-- The command line of src/gdump.cpp, over GetPot's view of it as in src/gadd.cpp. Messages are left
-- out.
pub mod Parsing
mod Tests
use grvy.Base.{Bool, true, false, List, [], ◌∷◌, length, ltb, if◌then◌else◌}
use grvy.Base.Text.{Text, bytes}
use grvy.Timer.Options.{set_option}
use grvy.Gadd.Arguments.{CommandLine, pop_argument}

-- What the program does: it prints its version or its usage, exits with 1 after the usage, or
-- summarizes a database, with the options of its timer object.
pub data DumpAction : Type 0 where
  dump_version dump_usage dump_exit : DumpAction
  summarize_hist : Text → Text → Text → List (Text × Bool) → DumpAction

-- `gt->SetOption` under a test of the command line.
unfoldable pub option_if : Bool → Text → Bool → List (Text × Bool) → List (Text × Bool)
option_if asked option flag options = if asked then (set_option option flag options).1 else options

-- The one required word.
unfoldable pub required_file : Text → Text → List (Text × Bool) → List Text → DumpAction
required_file delimiter output_dir options [] = dump_exit
required_file delimiter output_dir options (f ∷ []) = summarize_hist f delimiter output_dir options
required_file delimiter output_dir options (f ∷ w ∷ inputs) = dump_exit

-- The options that are flags.
unfoldable pub parse_flags : {F : Type 0} → CommandLine F → List (Text × Bool) → List (Text × Bool)
parse_flags cl options =
    let quiet =
      option_if (cl.search (bytes "--quiet") (bytes "-q")) (bytes "output_stdout") false options in
    let summarize =
      option_if (cl.search (bytes "--summarize-only") (bytes "-s")) (bytes "dump_files") false
        quiet in
    let comment =
      option_if (cl.search (bytes "--with-comment") (bytes "-c")) (bytes "output_comments") true
        summarize in
    let env =
      option_if (cl.search (bytes "--with-env") (bytes "-e")) (bytes "output_printenv") true
        comment in
    let subtimers = cl.search (bytes "--enable-subtimers") (bytes "-a") in
    option_if subtimers (bytes "output_totaltimer_raw") true
      (option_if subtimers (bytes "output_subtimer_raw") true env)

-- `parse_supported_options`, with the options of the timer object before it.
unfoldable pub parse_dump_options : {F : Type 0} → CommandLine F → List (Text × Bool) → DumpAction
parse_dump_options cl options =
    let has_delimiter = cl.search (bytes "--delimiter") (bytes "-d") in
    let next_delimiter = cl.next (bytes "--delimiter") (bytes "-d") (bytes "#") in
    let delimiter = if has_delimiter then next_delimiter else bytes "#" in
    let w1 =
      if has_delimiter then pop_argument next_delimiter cl.nominus_vector else cl.nominus_vector in
    let has_dir = cl.search (bytes "--output-dir") (bytes "-o") in
    let next_dir = cl.next (bytes "--output-dir") (bytes "-o") (bytes "./gdata") in
    let output_dir = if has_dir then next_dir else bytes "./gdata" in
    let inputs = if has_dir then pop_argument next_dir w1 else w1 in
    if cl.search (bytes "--version") (bytes "--version")
    then dump_version
    else if cl.search (bytes "--help") (bytes "-h")
    then dump_usage
    else if ltb 0 (length cl.unidentified_options)
    then dump_exit
    else required_file delimiter output_dir (parse_flags cl options) inputs
