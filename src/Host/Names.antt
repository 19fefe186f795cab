-- ===== src/Host/Names.antt =====
-- The domain name of GRVY_Hostenv_Class in src/grvy_env.cpp, and GRVY_get_numeric_version of
-- src/grvy_classes.cpp.
use grvy.Base.{
  ℕ, ◌+◌, ◌*◌, ◌<◌, Option, none, some, [], ◌∷◌, ◌++◌, ◌==◌, if◌then◌else◌, ◌≡◌, ◌≢◌, ◌↔◌, ◌⊎◌, All,
  refl, arith,
}
use grvy.Base.Text.{Text, bytes}

-- '.'.
abbrev pub dot : ℕ
dot = 46

-- `strstr(nodename, ".")`, one byte further: none is the null pointer.
unfoldable pub after_dot : Text → Option Text
after_dot [] = none
after_dot (c ∷ t) = if c == dot then some t else after_dot t

unfoldable pub domainname : Text → Text
domainname nodename = elim (after_dot nodename) [ none ↦ bytes "unknown" | some begin ↦ begin ]

-- `GRVY_get_numeric_version`.
unfoldable pub numeric_version : ℕ → ℕ → ℕ → ℕ
numeric_version major minor micro = major * 10000 + minor * 100 + micro

after_dot-append :
    (host domain : Text) → All (λ c. c ≢ dot) host → after_dot (host ++ dot ∷ domain) ≡ some domain
unfolding after_dot
after_dot-append [] domain h = ground arith
after_dot-append (c ∷ host) domain (a, h) = ground (arith, a, after_dot-append host domain h)

after_dot-none : (host : Text) → All (λ c. c ≢ dot) host → after_dot host ≡ none
unfolding after_dot
after_dot-none [] h = refl
after_dot-none (c ∷ host) (a, h) = ground (arith, a, after_dot-none host h)

-- The domain name of a node is what follows the first dot of its name, and "unknown" if there is
-- no dot.
pub domainname_lem :
    (host domain : Text)
    → All (λ c. c ≢ dot) host
    → (domainname (host ++ dot ∷ domain) ≡ domain) × (domainname host ≡ bytes "unknown")
unfolding domainname
domainname_lem host domain h =
    (ground (arith, after_dot-append host domain h), ground (arith, after_dot-none host h))

-- The order on version triples.
abbrev pub Earlier : ℕ × ℕ × ℕ → ℕ × ℕ × ℕ → Type 0
Earlier (a, b, c) (a', b', c') = (a < a') ⊎ ((a ≡ a') × ((b < b') ⊎ ((b ≡ b') × (c < c'))))

-- While minor and micro numbers are below 100, a version is earlier than another one exactly if its
-- number is smaller.
pub numeric_version-Earlier :
    (a b c a' b' c' : ℕ)
    → b < 100
    → c < 100
    → b' < 100
    → c' < 100
    → Earlier (a, b, c) (a', b', c') ↔ (numeric_version a b c < numeric_version a' b' c')
unfolding numeric_version
numeric_version-Earlier a b c a' b' c' hb hc hb' hc' = ground arith
