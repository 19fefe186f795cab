-- ===== src/Gdump/Parsing.antt =====
-- What src/gdump.cpp is asked for by a command line in which no word stands twice.
use grvy.Base.{
  length, ◌≢◌, ◌∙◌, Bool, true, false, not, List, [], ◌∷◌, ◌≡◌, refl, ap, if◌then◌else◌, arith,
}
use grvy.Base.Map.{find, insert, modify}
use grvy.Base.Text.{Text, bytes, text_beq, text_before, text_key}
use grvy.Timer.Options.{default_options, set_option}
use grvy.Gadd.Arguments.{CommandLine}
use grvy.Gadd.Parsing.{Distinct, without, values_of, pops-without}
use grvy.Gdump.{
  DumpAction, dump_exit, summarize_hist, option_if, required_file, parse_flags, parse_dump_options,
}

-- The options with their flags, in the order of their names.
abbrev pub flags : Bool → Bool → Bool → Bool → Bool → Bool → List (Text × Bool)
flags files comments env stdout subtimers total =
    (bytes "dump_files", files)
    ∷ (bytes "output_comments", comments)
    ∷ (bytes "output_printenv", env)
    ∷ (bytes "output_stdout", stdout)
    ∷ (bytes "output_subtimer_raw", subtimers)
    ∷ (bytes "output_totaltimer_raw", total)
    ∷ []

module _ (f c e o s t : Bool) where
  set_stdout :
      (asked : Bool)
      → option_if asked (bytes "output_stdout") false (flags f c e o s t)
        ≡ flags f c e (if asked then false else o) s t
  unfolding option_if set_option find modify text_beq
  set_stdout true = refl
  set_stdout false = refl

  set_files :
      (asked : Bool)
      → option_if asked (bytes "dump_files") false (flags f c e o s t)
        ≡ flags (if asked then false else f) c e o s t
  unfolding option_if set_option find modify text_beq
  set_files true = refl
  set_files false = refl

  set_comments :
      (asked : Bool)
      → option_if asked (bytes "output_comments") true (flags f c e o s t)
        ≡ flags f (if asked then true else c) e o s t
  unfolding option_if set_option find modify text_beq
  set_comments true = refl
  set_comments false = refl

  set_printenv :
      (asked : Bool)
      → option_if asked (bytes "output_printenv") true (flags f c e o s t)
        ≡ flags f c (if asked then true else e) o s t
  unfolding option_if set_option find modify text_beq
  set_printenv true = refl
  set_printenv false = refl

  set_subtimers :
      (asked : Bool)
      → option_if asked
          (bytes "output_totaltimer_raw")
          true
          (option_if asked (bytes "output_subtimer_raw") true (flags f c e o s t))
        ≡ flags f c e o (if asked then true else s) (if asked then true else t)
  unfolding option_if set_option find modify text_beq
  set_subtimers true = refl
  set_subtimers false = refl

default_flags : default_options ≡ flags true false false true false true
unfolding default_options insert text_beq text_before
default_flags = refl

required_file_exits :
    (delimiter dir : Text) (options : List (Text × Bool)) (words : List Text)
    → length words ≢ 1
    → required_file delimiter dir options words ≡ dump_exit
unfolding required_file
required_file_exits delimiter dir options [] h = refl
required_file_exits delimiter dir options (f ∷ []) h = absurd (h refl)
required_file_exits delimiter dir options (f ∷ w ∷ words) h = refl

module _ {F : Type 0} (cl : CommandLine F) where
  abbrev pub valued : Text → Text → Text → Bool × Text
  valued long short def = (cl.search long short, cl.next long short def)

  -- The flags that the command line asks for.
  abbrev pub asked_flags : List (Text × Bool)
  asked_flags =
      let subtimers = cl.search (bytes "--enable-subtimers") (bytes "-a") in
      flags (not (cl.search (bytes "--summarize-only") (bytes "-s")))
        (cl.search (bytes "--with-comment") (bytes "-c"))
        (cl.search (bytes "--with-env") (bytes "-e"))
        (not (cl.search (bytes "--quiet") (bytes "-q"))) subtimers true

  parse_flags-asked : parse_flags cl default_options ≡ asked_flags
  unfolding parse_flags
  parse_flags-asked =
      let q = cl.search (bytes "--quiet") (bytes "-q") in
      let s = cl.search (bytes "--summarize-only") (bytes "-s") in
      let c = cl.search (bytes "--with-comment") (bytes "-c") in
      let e = cl.search (bytes "--with-env") (bytes "-e") in
      let a = cl.search (bytes "--enable-subtimers") (bytes "-a") in
      let o1 = if q then false else true in
      let f1 = if s then false else true in
      let c1 = if c then true else false in
      let e1 = if e then true else false in
      rw
        (
          default_flags,
          set_stdout true false false true false true q,
          set_files true false false o1 false true s,
          set_comments f1 false false o1 false true c,
          set_printenv f1 c1 false o1 false true e,
          set_subtimers f1 c1 e1 o1 false true a,
        )
        (ground arith)

  -- The options that take a value.
  abbrev pub value_options : List (Bool × Text)
  value_options =
      valued (bytes "--delimiter") (bytes "-d") (bytes "#")
      ∷ valued (bytes "--output-dir") (bytes "-o") (bytes "./gdata")
      ∷ []

  -- What is done with the required word: a file.
  pub record Required (action : DumpAction) (words : List Text) : Type 0 where
    pub summarizes :
        (f : Text)
        → words ≡ f ∷ []
        → action
          ≡ summarize_hist f
              (if cl.search (bytes "--delimiter") (bytes "-d")
                then cl.next (bytes "--delimiter") (bytes "-d") (bytes "#")
                else bytes "#")
              (if cl.search (bytes "--output-dir") (bytes "-o")
                then cl.next (bytes "--output-dir") (bytes "-o") (bytes "./gdata")
                else bytes "./gdata")
              asked_flags
    pub exits : length words ≢ 1 → action ≡ dump_exit

  -- Without --version and --help, with no unknown option, and when no word of the command line stands
  -- twice, the program summarizes the one word that is no value of an option, with the given delimiter
  -- and directory or their defaults, and with the flags of the timer object that the options ask for;
  -- it exits after its usage where there is not one such word.
  pub parse_dump_options-without :
      Distinct cl.nominus_vector
      → cl.search (bytes "--version") (bytes "--version") ≡ false
      → cl.search (bytes "--help") (bytes "-h") ≡ false
      → cl.unidentified_options ≡ []
      → Required
          (parse_dump_options cl default_options)
          (without (values_of value_options) cl.nominus_vector)
  unfolding parse_dump_options required_file
  parse_dump_options-without d version help known =
      let words = without (values_of value_options) cl.nominus_vector in
      let delimiter =
        if cl.search (bytes "--delimiter") (bytes "-d")
        then cl.next (bytes "--delimiter") (bytes "-d") (bytes "#")
        else bytes "#" in
      let dir =
        if cl.search (bytes "--output-dir") (bytes "-o")
        then cl.next (bytes "--output-dir") (bytes "-o") (bytes "./gdata")
        else bytes "./gdata" in
      let parsed : parse_dump_options cl default_options
          ≡ required_file delimiter dir asked_flags words =
        rw (parse_flags-asked, version, help, known)
          (ap (required_file delimiter dir asked_flags)
            (pops-without value_options cl.nominus_vector d)) in
      record {
        summarizes = λ f e. parsed ∙ ap (required_file delimiter dir asked_flags) e;
        exits = λ h. parsed ∙ required_file_exits delimiter dir asked_flags words h;
      }
