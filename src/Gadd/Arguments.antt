-- ===== src/Gadd/Arguments.antt =====
-- The command line of src/gadd.cpp: GetPot's view of it, and the parsing of options.
use grvy.Base.{Bool, Option, none, some, List, [], ◌∷◌, length, if◌then◌else◌, ltb}
use grvy.Base.Int.{ℤ, pos, negsuc}
use grvy.Base.Text.{Text, bytes, text_beq}

-- What the program asks GetPot: whether one of two options is there, and what then follows it, read as
-- a text, an int or a double; the words that do not begin with a minus sign; the options that were
-- never asked for. The texts of numbers, and the value of one, are boost::lexical_cast's: F stands for
-- double, and none for its exception.
pub record CommandLine (F : Type 0) : Type 0 where
  pub search : Text → Text → Bool
  pub next : Text → Text → Text → Text
  pub next_int : Text → Text → ℤ → ℤ
  pub next_double : Text → Text → F → F
  pub nominus_vector : List Text
  pub unidentified_options : List Text
  pub text_of_int : ℤ → Text
  pub text_of_double : F → Text
  pub double_of_text : Text → Option F

-- `pop_argument`: after an erasure the next word moves to the place that the loop leaves.
unfoldable pub pop_argument : Text → List Text → List Text
pop_argument arg [] = []
pop_argument arg (x ∷ []) = if text_beq x arg then [] else x ∷ []
pop_argument arg (x ∷ y ∷ inputs) =
    let past_next = pop_argument arg inputs in
    let from_next = pop_argument arg (y ∷ inputs) in
    if text_beq x arg then y ∷ past_next else x ∷ from_next

-- `read_optional_argument`: the value, and the words that remain. `show` is the text of a value.
unfoldable pub read_optional_argument :
    {T : Type 0} → Bool → T → T → (T → Text) → List Text → T × List Text
read_optional_argument found next varname show inputs =
    (if found then next else varname, if found then pop_argument (show next) inputs else inputs)

-- The arguments of SaveHistTiming.
pub record Request (F : Type 0) : Type 0 where
  pub timing : F
  pub machine : Text
  pub name : Text
  pub comment : Text
  pub numprocs : ℤ
  pub job_id : ℤ
  pub revision : Text
  pub flops : F
  pub input_file : Text
  pub output_printenv : Bool

-- What the program does: it prints its version or its usage, exits with 1 after the usage, ends by an
-- exception, or saves a timing.
pub data Action (F : Type 0) : Type 0 where
  show_version show_usage exit_usage uncaught : Action F
  save : Request F → Action F

module _ {F : Type 0} (zero_flops : F) where
  -- The required words.
  abbrev pub required : CommandLine F → Request F → List Text → Action F
  required cl r [] = exit_usage
  required cl r (t ∷ []) = exit_usage
  required cl r (t ∷ n ∷ []) = exit_usage
  required cl r (t ∷ n ∷ f ∷ []) = elim (cl.double_of_text t) [
    | none ↦ uncaught
    | some x ↦ save (record r { timing = x; name = n; input_file = f })
  ]
  required cl r (t ∷ n ∷ f ∷ w ∷ inputs) = exit_usage

  -- `parse_supported_options`, without what it logs.
  unfoldable pub parse_supported_options : CommandLine F → Action F
  parse_supported_options cl =
      let read = λ (long short : Text) (def : Text) (inputs : List Text).
        read_optional_argument (cl.search long short) (cl.next long short def) def (λ t. t)
          inputs in
      let read_int = λ (long short : Text) (def : ℤ) (inputs : List Text).
        read_optional_argument (cl.search long short) (cl.next_int long short def) def
          cl.text_of_int inputs in
      let (comment, w1) = read (bytes "--comment") (bytes "-c") [] cl.nominus_vector in
      let (revision, w2) = read (bytes "--revision") (bytes "-r") (bytes "unknown") w1 in
      let (machine, w3) = read (bytes "--machine") (bytes "-m") [] w2 in
      let (job_id, w4) = read_int (bytes "--jobId") (bytes "-j") (negsuc 0) w3 in
      let (numprocs, w5) = read_int (bytes "--numprocs") (bytes "-p") (pos 1) w4 in
      let (flops, inputs) =
        read_optional_argument (cl.search (bytes "--flops") (bytes "-f"))
          (cl.next_double (bytes "--flops") (bytes "-f") zero_flops) zero_flops cl.text_of_double
          w5 in
      let r : Request F = record {
        timing = zero_flops;
        machine = machine;
        name = [];
        comment = comment;
        numprocs = numprocs;
        job_id = job_id;
        revision = revision;
        flops = flops;
        input_file = [];
        output_printenv = cl.search (bytes "--with-env") (bytes "-e");
      } in
      if cl.search (bytes "--version") (bytes "--version")
      then show_version
      else if cl.search (bytes "--help") (bytes "-h")
      then show_usage
      else if ltb 0 (length cl.unidentified_options)
      then exit_usage
      else required cl r inputs
