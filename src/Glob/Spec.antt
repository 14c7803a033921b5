-- ===== src/Glob/Spec.antt =====
-- What a pattern means, character by character and with no search order in it.
use http_nu.Common.{ℕ, ◌≡◌, ◌≢◌, [], ◌∷◌, Text}
use http_nu.Glob.{star_char}

-- A `*` stands for any run of characters, dots included; any other character for itself.
pub data GlobMatches : Text → Text → Type 0 where
  done : GlobMatches [] []
  same :
      {c d : ℕ} {p s : Text} → c ≢ star_char → c ≡ d → GlobMatches p s → GlobMatches (c ∷ p) (d ∷ s)
  skip : {c : ℕ} {p s : Text} → c ≡ star_char → GlobMatches p s → GlobMatches (c ∷ p) s
  take :
      {c d : ℕ} {p s : Text} → c ≡ star_char → GlobMatches (c ∷ p) s → GlobMatches (c ∷ p) (d ∷ s)

pub same_inv :
    {c d : ℕ} {p s : Text} → c ≢ star_char → GlobMatches (c ∷ p) (d ∷ s) → (c ≡ d) × GlobMatches p s
same_inv n (same _ e m) = (e, m)
same_inv n (skip e m) = absurd (n e)
same_inv n (take e m) = absurd (n e)

pub same_nil : {c : ℕ} {p : Text} → c ≢ star_char → ¬ GlobMatches (c ∷ p) []
same_nil n (skip e m) = n e

-- Two stars in a row mean what one means.
pub two_stars :
    {c d : ℕ} {p s : Text}
    → c ≡ star_char
    → d ≡ star_char
    → GlobMatches (c ∷ d ∷ p) s
    → GlobMatches (d ∷ p) s
two_stars ec ed (same n e m) = absurd (n ec)
two_stars ec ed (skip e m) = m
two_stars ec ed (take e m) = take ed (two_stars ec ed m)
