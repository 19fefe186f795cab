-- ===== src/Gadd/Parsing.antt =====
-- Which words src/gadd.cpp takes for the required ones, when no word stands twice.
use grvy.Base.{
  none, some, length, ◌≢◌, Bool, true, false, List, [], ◌∷◌, ◌++◌, ◌||◌, ◌≡◌, refl, sym, ap, ◌∙◌,
  inl, inr, if◌then◌else◌, arith, Bool-cases,
}
use grvy.Base.Int.{pos, negsuc}
use grvy.Base.Text.{Text, bytes, text_beq, text_beq_iff}
use grvy.Gadd.Arguments.{CommandLine, pop_argument, Request, Action, uncaught, save, exit_usage}

abbrev pub is_in : Text → List Text → Bool
is_in x [] = false
is_in x (y ∷ ys) = text_beq x y || is_in x ys

-- No word stands twice.
abbrev pub Distinct : List Text → Type 0
Distinct [] = Unit
Distinct (x ∷ xs) = (is_in x xs ≡ false) × Distinct xs

-- The words that are none of the values.
abbrev pub without : List Text → List Text → List Text
without vs [] = []
without vs (x ∷ xs) = let rest = without vs xs in if is_in x vs then rest else x ∷ rest

-- The value of an option that is there.
abbrev pub given : Bool → Text → List Text
given found v = if found then v ∷ [] else []

without_absent : (v : Text) (xs : List Text) → is_in v xs ≡ false → without (v ∷ []) xs ≡ xs
without_absent v [] h = refl
without_absent v (x ∷ xs) h =
    ground (arith, h, text_beq_iff v x, text_beq_iff x v, without_absent v xs)

pop_argument-without :
    (v : Text) (xs : List Text) → Distinct xs → pop_argument v xs ≡ without (v ∷ []) xs
unfolding pop_argument
pop_argument-without v [] d = refl
pop_argument-without v (x ∷ []) d = ground arith
pop_argument-without v (x ∷ y ∷ xs) (h, d) = elim (Bool-cases (text_beq x v)) [
  | inr other ↦ ground (arith, other, pop_argument-without v (y ∷ xs) d)
  | inl same ↦ ground (
    arith,
    same,
    h,
    pop_argument-without v xs d.1,
    text_beq_iff x v,
    text_beq_iff x y,
    text_beq_iff y v,
  )
]

is_in-append : (x : Text) (us vs : List Text) → is_in x (us ++ vs) ≡ (is_in x us || is_in x vs)
is_in-append x [] vs = refl
is_in-append x (u ∷ us) vs = ground (arith, is_in-append x us vs)

without-append : (us vs xs : List Text) → without (us ++ vs) xs ≡ without vs (without us xs)
without-append us vs [] = refl
without-append us vs (x ∷ xs) = ground (arith, is_in-append x us vs, without-append us vs xs)

without_none : (xs : List Text) → without [] xs ≡ xs
without_none [] = refl
without_none (x ∷ xs) = ap (λ t. x ∷ t) (without_none xs)

is_in-without :
    (x : Text) (vs xs : List Text) → is_in x xs ≡ false → is_in x (without vs xs) ≡ false
is_in-without x vs [] h = refl
is_in-without x vs (y ∷ xs) h = ground (arith, h, is_in-without x vs xs)

without-Distinct : (vs xs : List Text) → Distinct xs → Distinct (without vs xs)
without-Distinct vs [] d = tt
without-Distinct vs (x ∷ xs) (h, d) = elim (Bool-cases (is_in x vs)) [
  | inl e ↦ rw e (without-Distinct vs xs d)
  | inr e ↦ rw e (is_in-without x vs xs h, without-Distinct vs xs d)
]

-- The words that are left after options, each of which is there or not, with its value.
abbrev pub pops : List (Bool × Text) → List Text → List Text
pops [] ws = ws
pops ((found, v) ∷ os) ws = pops os (if found then pop_argument v ws else ws)

abbrev pub values_of : List (Bool × Text) → List Text
values_of [] = []
values_of ((found, v) ∷ os) = given found v ++ values_of os

pop-without :
    (found : Bool) (v : Text) (ws : List Text)
    → Distinct ws
    → (if found then pop_argument v ws else ws) ≡ without (given found v) ws
pop-without true v ws d = pop_argument-without v ws d
pop-without false v ws d = sym (without_none ws)

pub pops-without :
    (os : List (Bool × Text)) (ws : List Text)
    → Distinct ws
    → pops os ws ≡ without (values_of os) ws
pops-without [] ws d = sym (without_none ws)
pops-without ((found, v) ∷ os) ws d =
    ap (pops os) (pop-without found v ws d)
    ∙ pops-without os (without (given found v) ws) (without-Distinct (given found v) ws d)
    ∙ sym (without-append (given found v) (values_of os) ws)

module _ {F : Type 0} (zero_flops : F) (cl : CommandLine F) where
  abbrev pub text_option : Text → Text → Text → Bool × Text
  text_option long short def = (cl.search long short, cl.next long short def)

  -- The options with their values, in the order in which the program asks for them.
  abbrev pub options : List (Bool × Text)
  options =
      text_option (bytes "--comment") (bytes "-c") []
      ∷ text_option (bytes "--revision") (bytes "-r") (bytes "unknown")
      ∷ text_option (bytes "--machine") (bytes "-m") []
      ∷ (
        cl.search (bytes "--jobId") (bytes "-j"),
        cl.text_of_int (cl.next_int (bytes "--jobId") (bytes "-j") (negsuc 0)),
      )
      ∷ (
        cl.search (bytes "--numprocs") (bytes "-p"),
        cl.text_of_int (cl.next_int (bytes "--numprocs") (bytes "-p") (pos 1)),
      )
      ∷ (
        cl.search (bytes "--flops") (bytes "-f"),
        cl.text_of_double (cl.next_double (bytes "--flops") (bytes "-f") zero_flops),
      )
      ∷ []

  -- What is saved, but for the required words: the option's value, or its default.
  abbrev pub optional : Request F
  optional = record {
    timing = zero_flops;
    machine =
        if cl.search (bytes "--machine") (bytes "-m")
        then cl.next (bytes "--machine") (bytes "-m") []
        else [];
    name = [];
    comment =
        if cl.search (bytes "--comment") (bytes "-c")
        then cl.next (bytes "--comment") (bytes "-c") []
        else [];
    numprocs =
        if cl.search (bytes "--numprocs") (bytes "-p")
        then cl.next_int (bytes "--numprocs") (bytes "-p") (pos 1)
        else pos 1;
    job_id =
        if cl.search (bytes "--jobId") (bytes "-j")
        then cl.next_int (bytes "--jobId") (bytes "-j") (negsuc 0)
        else negsuc 0;
    revision =
        if cl.search (bytes "--revision") (bytes "-r")
        then cl.next (bytes "--revision") (bytes "-r") (bytes "unknown")
        else bytes "unknown";
    flops =
        if cl.search (bytes "--flops") (bytes "-f")
        then cl.next_double (bytes "--flops") (bytes "-f") zero_flops
        else zero_flops;
    input_file = [];
    output_printenv = cl.search (bytes "--with-env") (bytes "-e");
  }

  -- What is done with the required words: a timing, a name and a file.
  pub record Required (action : Action F) (words : List Text) : Type 0 where
    pub saves :
        (t n f : Text) (x : F)
        → words ≡ t ∷ n ∷ f ∷ []
        → cl.double_of_text t ≡ some x
        → action ≡ save (record optional { timing = x; name = n; input_file = f })
    pub throws :
        (t n f : Text) → words ≡ t ∷ n ∷ f ∷ [] → cl.double_of_text t ≡ none → action ≡ uncaught
    pub exits : length words ≢ 3 → action ≡ exit_usage
