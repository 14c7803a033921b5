-- ===== src/Glob/Compile/Shape.antt =====
-- The shape of a matcher that `GlobMatcher::new` builds.
use http_nu.Common.{
  ℕ, ◌≢◌, sym, subst, inl, inr, true, false, List, [], ◌∷◌, ◌++◌, Text, Bool-cases, ◌==◌,
}
use http_nu.Glob.{GlobPart, literal, star, star_char, new_matcher}
use http_nu.Glob.Compile.{tail_of, tail_of-after, finish-tail_of}

-- What stands before a part.
pub data Before : Type 0 where
  start behind_star behind_text : Before

-- Stars and texts take turns, and no text is empty.
abbrev pub Alternates : Before → List GlobPart → Type 0
Alternates b [] = Unit
Alternates b (star ∷ ps) = (b ≢ behind_star) × Alternates behind_star ps
Alternates b (literal l ∷ ps) = (b ≢ behind_text) × (l ≢ []) × Alternates behind_text ps

record Compact (r : Text) : Type 0 where
  after_star : Alternates behind_star (tail_of true [] r)
  buffered :
      (b : Before) (x : ℕ) (buf : Text) → b ≢ behind_text → Alternates b (tail_of false (x ∷ buf) r)

compact : (r : Text) → Compact r
unfolding tail_of
compact [] = record { after_star = tt; buffered = λ b x buf n. (n, (λ e. cc), tt) }
compact (c ∷ r) = elim (Bool-cases (c == star_char)) [
  | inl e ↦ record {
    after_star = rw e ((compact r).after_star);
    buffered = λ b x buf n. rw e (n, (λ q. cc), ((λ q. cc), (compact r).after_star));
  }
  | inr e ↦ record {
    after_star = rw (e, tail_of-after r c []) ((compact r).buffered behind_star c [] (λ q. cc));
    buffered = λ b x buf n. rw e ((compact r).buffered b x (buf ++ c ∷ []) n);
  }
]

alternates : (r : Text) → Alternates start (tail_of false [] r)
unfolding tail_of
alternates [] = tt
alternates (c ∷ r) = elim (Bool-cases (c == star_char)) [
  | inl e ↦ rw e ((λ q. cc), (compact r).after_star)
  | inr e ↦ rw e ((compact r).buffered start c [] (λ q. cc))
]

-- A matcher never holds two stars in a row, two texts in a row, or an empty text, so that each step
-- of the match either consumes a character or leaves a star behind.
pub new_matcher-Alternates : (p : Text) → Alternates start (new_matcher p)
unfolding new_matcher
new_matcher-Alternates p = subst (Alternates start) (sym (finish-tail_of p [] [])) (alternates p)
