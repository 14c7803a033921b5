-- ===== src/Glob/Compile.antt =====
-- `GlobMatcher::new` keeps the meaning of the pattern.
pub mod Shape
use http_nu.Common.{
  ℕ, ◌≡◌, ◌≢◌, refl, sym, ap, ◌∙◌, subst, ◌↔◌, ◌⊎◌, inl, inr, Bool, true, false, List, [], ◌∷◌,
  ◌++◌, Text, append-nil, append_assoc, Bool-cases, is_empty, arith, ◌==◌, if◌then◌else◌, ==_iff,
}
use http_nu.Glob.{
  GlobPart, literal, star, star_char, Builder, ends_in_star, flush, push_star, push_char,
  push_chars, new_matcher, glob_matches, match_parts,
}
use http_nu.Glob.Spec.{GlobMatches, done, same, skip, take, same_inv, same_nil, two_stars}
use http_nu.Glob.Match.{PartsMatch, finished, text, stop, more, star_only, match_parts_iff}

-- The parts that the loop adds from here on: `after` tells whether the last part is a star.
tail_of : Bool → Text → Text → List GlobPart
tail_of after [] [] = []
tail_of after (b ∷ buf) [] = literal (b ∷ buf) ∷ []
tail_of after [] (c ∷ r) =
    if c == star_char
    then (if after then tail_of true [] r else star ∷ tail_of true [] r)
    else tail_of after (c ∷ []) r
tail_of after (b ∷ buf) (c ∷ r) =
    if c == star_char
    then literal (b ∷ buf) ∷ star ∷ tail_of true [] r
    else tail_of after (b ∷ buf ++ c ∷ []) r

ends_in_star-snoc : (ps : List GlobPart) → ends_in_star (ps ++ star ∷ []) ≡ true
unfolding ends_in_star
ends_in_star-snoc [] = refl
ends_in_star-snoc (star ∷ []) = refl
ends_in_star-snoc (literal l ∷ []) = refl
ends_in_star-snoc (p ∷ q ∷ ps) = ends_in_star-snoc (q ∷ ps)

ends_in_star-literal : (ps : List GlobPart) (l : Text) → ends_in_star (ps ++ literal l ∷ []) ≡ false
unfolding ends_in_star
ends_in_star-literal [] l = refl
ends_in_star-literal (star ∷ []) l = refl
ends_in_star-literal (literal k ∷ []) l = refl
ends_in_star-literal (p ∷ q ∷ ps) l = ends_in_star-literal (q ∷ ps) l

ends_in_star-push_star : (ps : List GlobPart) → ends_in_star (push_star ps) ≡ true
unfolding push_star
ends_in_star-push_star ps = ground (arith, ends_in_star-snoc ps)

abbrev finish : Builder → Text → List GlobPart
finish b r = flush (push_chars b r)

abbrev building : List GlobPart → Text → Builder
building parts buf = record { parts = parts; buf = buf }

-- One round of the loop, seen through what is still to come.
push_char-tail_of :
    (parts : List GlobPart) (buf : Text) (c : ℕ) (r : Text)
    → let b = push_char (building parts buf) c in
      b.parts ++ tail_of (ends_in_star b.parts) b.buf r
      ≡ parts ++ tail_of (ends_in_star parts) buf (c ∷ r)
unfolding push_char tail_of
push_char-tail_of parts [] c r =
    ground (arith, ends_in_star-snoc parts, append_assoc parts (star ∷ []) (tail_of true [] r))
push_char-tail_of parts (b ∷ buf) c r = ground (
  arith,
  ends_in_star-literal parts (b ∷ buf),
  ends_in_star-snoc (parts ++ literal (b ∷ buf) ∷ []),
  append_assoc parts (literal (b ∷ buf) ∷ []) (star ∷ []),
  append_assoc (parts ++ literal (b ∷ buf) ∷ []) (star ∷ []) (tail_of true [] r),
  append_assoc parts (literal (b ∷ buf) ∷ []) (star ∷ tail_of true [] r),
)

finish-tail_of :
    (r buf : Text) (parts : List GlobPart)
    → finish (building parts buf) r ≡ parts ++ tail_of (ends_in_star parts) buf r
unfolding flush push_chars tail_of
finish-tail_of [] [] parts = sym (append-nil parts)
finish-tail_of [] (b ∷ buf) parts = refl
finish-tail_of (c ∷ r) buf parts =
    let b = push_char (building parts buf) c in
    finish-tail_of r b.buf b.parts ∙ push_char-tail_of parts buf c r

-- A pattern and a list of parts that match the same texts still do behind a star.
star_mono :
    {c : ℕ} {p s : Text} {ps : List GlobPart}
    → c ≡ star_char
    → ((t : Text) → GlobMatches p t → PartsMatch ps t)
    → GlobMatches (c ∷ p) s
    → PartsMatch (star ∷ ps) s
star_mono ec h (same n e m) = absurd (n ec)
star_mono ec h (skip e m) = stop (h _ m)
star_mono ec h (take e m) = more (star_mono ec h m)

star_mono_back :
    {c : ℕ} {p s : Text} {ps : List GlobPart}
    → c ≡ star_char
    → ((t : Text) → PartsMatch ps t → GlobMatches p t)
    → PartsMatch (star ∷ ps) s
    → GlobMatches (c ∷ p) s
star_mono_back ec h (stop m) = skip ec (h _ m)
star_mono_back ec h (more m) = take ec (star_mono_back ec h m)

-- What is buffered stands for itself, and the rest of the pattern for the rest of the text.
abbrev Split : Text → Text → Text → Type 0
Split buf r s = (t : Text) × (s ≡ buf ++ t) × GlobMatches r t

-- Matching behind a run of buffered characters and one more.
Split-char :
    (buf : Text) (c : ℕ) (r s : Text)
    → c ≢ star_char
    → Split (buf ++ c ∷ []) r s
    → Split buf (c ∷ r) s
Split-char buf c r s n (t, e, m) = (c ∷ t, e ∙ append_assoc buf (c ∷ []) t, same n refl m)

Split-uncons :
    (buf : Text) (c : ℕ) (r s : Text)
    → c ≢ star_char
    → Split buf (c ∷ r) s
    → Split (buf ++ c ∷ []) r s
Split-uncons buf c r s n ([], e, m) = absurd (same_nil n m)
Split-uncons buf c r s n (d ∷ t, e, m) =
    let (cd, m') = same_inv n m in (t, ground (arith, append_assoc buf (c ∷ []) t), m')

not_star : (c : ℕ) → (c == star_char) ≡ false → c ≢ star_char
not_star c e = ground arith

is_star : (c : ℕ) → (c == star_char) ≡ true → c ≡ star_char
is_star c e = ground arith

tail_of-star :
    (x : ℕ) (buf : Text) (c : ℕ) (r : Text)
    → (c == star_char) ≡ true
    → (tail_of false [] (c ∷ r) ≡ star ∷ tail_of true [] r)
      × (tail_of false (x ∷ buf) (c ∷ r) ≡ literal (x ∷ buf) ∷ star ∷ tail_of true [] r)
      × (tail_of true [] (c ∷ r) ≡ tail_of true [] r)
unfolding tail_of
tail_of-star x buf c r e = ground arith

tail_of-char :
    (after : Bool) (buf : Text) (c : ℕ) (r : Text)
    → (c == star_char) ≡ false
    → tail_of after buf (c ∷ r) ≡ tail_of after (buf ++ c ∷ []) r
unfolding tail_of
tail_of-char after [] c r e = ground arith
tail_of-char after (b ∷ buf) c r e = ground arith

-- Behind a buffered character it does not matter what stood before.
tail_of-after :
    (r : Text) (b : ℕ) (buf : Text) → tail_of true (b ∷ buf) r ≡ tail_of false (b ∷ buf) r
unfolding tail_of
tail_of-after [] b buf = refl
tail_of-after (c ∷ r) b buf = ground (arith, tail_of-after r b (buf ++ c ∷ []))

-- The parts mean what the rest of the pattern means: behind a buffer, and behind a star.
record Means (r : Text) : Type 0 where
  buffered : (buf s : Text) → PartsMatch (tail_of false buf r) s ↔ Split buf r s
  starred :
      (c : ℕ) (s : Text)
      → c ≡ star_char
      → PartsMatch (star ∷ tail_of true [] r) s ↔ GlobMatches (c ∷ r) s

buffered-nil : (buf s : Text) → PartsMatch (tail_of false buf []) s ↔ Split buf [] s
unfolding tail_of
buffered-nil [] s = (λ m. from m, λ (t, e, m). to t e m)
  where
    from : {u : Text} → PartsMatch [] u → Split [] [] u
    from finished = ([], refl, done)

    to : (t : Text) → s ≡ t → GlobMatches [] t → PartsMatch [] s
    to t e done = rw e finished
buffered-nil (b ∷ buf) s = (λ m. from m, λ (t, e, m). to t e m)
  where
    from : {u : Text} → PartsMatch (literal (b ∷ buf) ∷ []) u → Split (b ∷ buf) [] u
    from (text e finished) = ([], e, done)

    to : (t : Text) → s ≡ (b ∷ buf) ++ t → GlobMatches [] t → PartsMatch (literal (b ∷ buf) ∷ []) s
    to t e done = text e finished

starred-nil : (c : ℕ) (s : Text) → c ≡ star_char → PartsMatch (star ∷ []) s ↔ GlobMatches (c ∷ []) s
starred-nil c s e = (star_mono_back e (λ t m. nothing m), λ m. star_only s)
  where
    nothing : {t : Text} → PartsMatch [] t → GlobMatches [] t
    nothing finished = done

buffered-star :
    (c : ℕ) (r : Text)
    → (c == star_char) ≡ true
    → Means r
    → (buf s : Text) → PartsMatch (tail_of false buf (c ∷ r)) s ↔ Split buf (c ∷ r) s
buffered-star c r e means [] s = rw ((tail_of-star 0 [] c r e).0) (
    let (from, to) = means.starred c s (is_star c e) in
    (λ m. (s, refl, from m), λ (t, q, m). to (rw q m)))
buffered-star c r e means (b ∷ buf) s =
    rw ((tail_of-star b buf c r e).1)
      (λ m. from m, λ (t, q, m). text q ((means.starred c t (is_star c e)).1 m))
  where
    from :
        {u : Text}
        → PartsMatch (literal (b ∷ buf) ∷ star ∷ tail_of true [] r) u
        → Split (b ∷ buf) (c ∷ r) u
    from (text {s = t} q m) = (t, q, (means.starred c t (is_star c e)).0 m)

starred-char :
    (c : ℕ) (r : Text)
    → (c == star_char) ≡ false
    → Means r
    → (d : ℕ) (s : Text) → d ≡ star_char
    → PartsMatch (star ∷ tail_of true [] (c ∷ r)) s ↔ GlobMatches (d ∷ c ∷ r) s
starred-char c r n means d s e =
    rw (tail_of-char true [] c r n, tail_of-after r c []) (star_mono_back e from, star_mono e to)
  where
    from : (t : Text) → PartsMatch (tail_of false (c ∷ []) r) t → GlobMatches (c ∷ r) t
    from t m = let (u, q, g) = (means.buffered (c ∷ []) t).0 m in rw q (same (not_star c n) refl g)

    to : (t : Text) → GlobMatches (c ∷ r) t → PartsMatch (tail_of false (c ∷ []) r) t
    to t m = (means.buffered (c ∷ []) t).1 (Split-uncons [] c r t (not_star c n) (t, refl, m))

means : (r : Text) → Means r
unfolding tail_of
means [] = record { buffered = buffered-nil; starred = starred-nil }
means (c ∷ r) = elim (Bool-cases (c == star_char)) [
  | inl e ↦ record {
    buffered = buffered-star c r e (means r);
    starred = λ d s ed. rw ((tail_of-star 0 [] c r e).2) (
      λ m. skip ed (((means r).starred c s (is_star c e)).0 m),
      λ m. ((means r).starred c s (is_star c e)).1 (two_stars ed (is_star c e) m),
    );
  }
  | inr n ↦ record {
    buffered = λ buf s. rw (tail_of-char false buf c r n) (
      λ m. Split-char buf c r s (not_star c n) (((means r).buffered (buf ++ c ∷ []) s).0 m),
      λ m. ((means r).buffered (buf ++ c ∷ []) s).1 (Split-uncons buf c r s (not_star c n) m),
    );
    starred = starred-char c r n (means r);
  }
]

-- A matcher built from a pattern accepts exactly the topics that the pattern means: the collapsing
-- of stars, the buffering of literals and the search order change nothing.
pub glob_matches_iff : (p s : Text) → (glob_matches p s ≡ true) ↔ GlobMatches p s
unfolding glob_matches new_matcher
glob_matches_iff p s =
    let (decide, complete) = match_parts_iff (new_matcher p) s in
    let e : new_matcher p ≡ tail_of false [] p = finish-tail_of p [] [] in
    let (from, to) = (means p).buffered [] s in
    (
      λ h. let (t, q, m) = from (subst (λ ps. PartsMatch ps s) e (decide h)) in rw q m,
      λ m. complete (subst (λ ps. PartsMatch ps s) (sym e) (to (s, refl, m))),
    )
