-- ===== src/Glob.antt =====
-- The glob matcher of src/bus.rs: `GlobPart`, `GlobMatcher::new`, `GlobMatcher::matches` and
-- `match_parts`. A topic and a pattern are lists of code points.
pub mod Spec
pub mod Match
pub mod Compile
mod Tests
use http_nu.Common.{
  ℕ, Bool, true, false, not, ◌&&◌, List, [], ◌∷◌, ◌++◌, Text, strip_prefix, Option, none, some,
  is_empty, ◌==◌, if◌then◌else◌,
}

pub data GlobPart : Type 0 where
  literal : Text → GlobPart
  star : GlobPart

abbrev pub star_char : ℕ
star_char = b'*'

-- The `Star` branch: the rest is tried at each character of the text, then at its end.
unfoldable pub any_suffix : (Text → Bool) → Text → Bool
any_suffix f [] = f []
any_suffix f (c ∷ s) = let later = any_suffix f s in if f (c ∷ s) then true else later

unfoldable pub match_parts : List GlobPart → Text → Bool
match_parts [] s = is_empty s
match_parts (literal lit ∷ rest) s = elim (strip_prefix lit s) [
  | none ↦ false
  | some remainder ↦ match_parts rest remainder
]
match_parts (star ∷ rest) s = if is_empty rest then true else any_suffix (match_parts rest) s

-- The loop's variables `parts` and `buf`.
pub record Builder : Type 0 where
  pub parts : List GlobPart
  pub buf : Text

unfoldable pub ends_in_star : List GlobPart → Bool
ends_in_star [] = false
ends_in_star (star ∷ []) = true
ends_in_star (literal _ ∷ []) = false
ends_in_star (p ∷ q ∷ ps) = ends_in_star (q ∷ ps)

unfoldable pub flush : Builder → List GlobPart
flush b = if not (is_empty b.buf) then b.parts ++ literal b.buf ∷ [] else b.parts

unfoldable pub push_star : List GlobPart → List GlobPart
unfolding ends_in_star
push_star parts = if not (ends_in_star parts) then parts ++ star ∷ [] else parts

unfoldable pub push_char : Builder → ℕ → Builder
unfolding flush push_star
push_char b ch =
    if ch == star_char
    then record { parts = push_star (flush b); buf = [] }
    else record b { buf = b.buf ++ ch ∷ [] }

unfoldable pub push_chars : Builder → Text → Builder
unfolding push_char
push_chars b [] = b
push_chars b (ch ∷ rest) = push_chars (push_char b ch) rest

-- `GlobMatcher::new`.
unfoldable pub new_matcher : Text → List GlobPart
unfolding push_chars flush
new_matcher pattern = flush (push_chars (record { parts = []; buf = [] }) pattern)

-- `GlobMatcher::matches` of a matcher that `new` built.
unfoldable pub glob_matches : Text → Text → Bool
unfolding new_matcher match_parts strip_prefix
glob_matches pattern s = match_parts (new_matcher pattern) s
