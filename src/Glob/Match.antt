-- ===== src/Glob/Match.antt =====
-- `match_parts` decides what a list of parts matches.
use http_nu.Common.{
  ◌≡◌, refl, ◌↔◌, inl, inr, Bool, true, List, [], ◌∷◌, ◌++◌, Text, strip_prefix,
  strip_prefix-append, append-strip_prefix, Option-cases, Bool-cases, arith, ℕ,
}
use http_nu.Glob.{GlobPart, literal, star, any_suffix, match_parts}

pub data PartsMatch : List GlobPart → Text → Type 0 where
  finished : PartsMatch [] []
  text :
      {lit s t : Text} {ps : List GlobPart}
      → t ≡ lit ++ s
      → PartsMatch ps s
      → PartsMatch (literal lit ∷ ps) t
  stop : {s : Text} {ps : List GlobPart} → PartsMatch ps s → PartsMatch (star ∷ ps) s
  more :
      {c : ℕ} {s : Text} {ps : List GlobPart}
      → PartsMatch (star ∷ ps) s
      → PartsMatch (star ∷ ps) (c ∷ s)

pub star_only : (s : Text) → PartsMatch (star ∷ []) s
star_only [] = stop finished
star_only (c ∷ s) = more (star_only s)

any_suffix_sound :
    (f : Text → Bool) (ps : List GlobPart)
    → ((t : Text) → f t ≡ true → PartsMatch ps t)
    → (s : Text) → any_suffix f s ≡ true
    → PartsMatch (star ∷ ps) s
unfolding any_suffix
any_suffix_sound f ps h [] e = stop (h [] e)
any_suffix_sound f ps h (c ∷ s) e = elim (Bool-cases (f (c ∷ s))) [
  | inl now ↦ stop (h (c ∷ s) now)
  | inr later ↦ more (any_suffix_sound f ps h s (rw later at e))
]

any_suffix_self : (f : Text → Bool) (s : Text) → f s ≡ true → any_suffix f s ≡ true
unfolding any_suffix
any_suffix_self f [] e = e
any_suffix_self f (c ∷ s) e = rw e

any_suffix_later :
    (f : Text → Bool) (c : ℕ) (s : Text) → any_suffix f s ≡ true → any_suffix f (c ∷ s) ≡ true
unfolding any_suffix
any_suffix_later f c s e = ground arith

any_suffix_complete :
    (f : Text → Bool) {ps : List GlobPart} {s : Text}
    → ((t : Text) → PartsMatch ps t → f t ≡ true)
    → PartsMatch (star ∷ ps) s
    → any_suffix f s ≡ true
any_suffix_complete f h (stop m) = any_suffix_self f _ (h _ m)
any_suffix_complete f h (more m) = any_suffix_later f _ _ (any_suffix_complete f h m)

pub match_parts_sound : (ps : List GlobPart) (s : Text) → match_parts ps s ≡ true → PartsMatch ps s
unfolding match_parts
match_parts_sound [] [] e = finished
match_parts_sound [] (c ∷ s) e = absurd (ground arith)
match_parts_sound (literal lit ∷ ps) s e = elim (Option-cases (strip_prefix lit s)) [
  | inl miss ↦ absurd (ground arith)
  | inr (r, hit) ↦ text (append-strip_prefix lit s r hit) (match_parts_sound ps r (ground arith))
]
match_parts_sound (star ∷ []) s e = star_only s
match_parts_sound (star ∷ p ∷ ps) s e =
    any_suffix_sound (match_parts (p ∷ ps)) (p ∷ ps) (match_parts_sound (p ∷ ps)) s e

pub match_parts_complete :
    (ps : List GlobPart) (s : Text) → PartsMatch ps s → match_parts ps s ≡ true
unfolding match_parts
match_parts_complete [] s finished = refl
match_parts_complete (literal lit ∷ ps) t (text {s} e m) =
    ground (arith, strip_prefix-append lit s, match_parts_complete ps s m)
match_parts_complete (star ∷ []) s m = refl
match_parts_complete (star ∷ p ∷ ps) s m =
    any_suffix_complete (match_parts (p ∷ ps)) (match_parts_complete (p ∷ ps)) m

pub match_parts_iff : (ps : List GlobPart) (s : Text) → (match_parts ps s ≡ true) ↔ PartsMatch ps s
match_parts_iff ps s = (match_parts_sound ps s, match_parts_complete ps s)
