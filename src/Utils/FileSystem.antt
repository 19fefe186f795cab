-- ===== src/Utils/FileSystem.antt =====
-- The system calls that src/grvy_utils.cpp makes, as operations on the state of a file system.
use grvy.Base.{Bool, true, List, [], ◌∷◌, ◌≡◌, if◌then◌else◌, arith}
use grvy.Base.Text.{Text, text_beq, text_beq_iff}

-- What stat and lstat find.
pub data Entry : Type 0 where
  missing unreadable directory regular symlink special : Entry

-- A call returns true for the code 0. mkdir makes a directory, and no directory is lost by it.
pub record FileSystem (S : Type 0) : Type 0 where
  pub stat : Text → S → Entry
  pub mkdir : Text → S → Bool × S
  pub mkdir-made : (p : Text) (s : S) → (mkdir p s).0 ≡ true → stat p (mkdir p s).1 ≡ directory
  pub mkdir-kept : (p q : Text) (s : S) → stat q s ≡ directory → stat q (mkdir p s).1 ≡ directory

-- A file system that is the list of its directories.
abbrev pub is_listed : Text → List Text → Entry
is_listed p [] = missing
is_listed p (q ∷ s) = if text_beq q p then directory else is_listed p s

pub is_listed-made : (p : Text) (s : List Text) → is_listed p (p ∷ s) ≡ directory
is_listed-made p s = ground (arith, text_beq_iff p p)

pub is_listed-kept :
    (p q : Text) (s : List Text) → is_listed q s ≡ directory → is_listed q (p ∷ s) ≡ directory
is_listed-kept p q s h = ground (arith, h)

abbrev pub directories : FileSystem (List Text)
directories = record {
  stat = is_listed;
  mkdir = λ p s. (true, p ∷ s);
  mkdir-made = λ p s h. is_listed-made p s;
  mkdir-kept = is_listed-kept;
}
