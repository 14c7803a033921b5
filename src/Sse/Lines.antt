-- ===== src/Sse/Lines.antt =====
-- The lines of a text hold no line feed.
use http_nu.Common.{
  ◌≡◌, false, inl, inr, List, [], ◌∷◌, Text, All, split, split-pieces, ◌==◌, Bool-cases,
}
use http_nu.Sse.{strip_cr, ended_lines, lines}

-- No line feed.
abbrev pub OneLine : Text → Type 0
OneLine s = All (λ c. (c == b'\n') ≡ false) s

strip_cr-OneLine : (s : Text) → OneLine s → OneLine (strip_cr s)
unfolding strip_cr
strip_cr-OneLine [] h = tt
strip_cr-OneLine (c ∷ []) (h, _) = elim (Bool-cases (c == b'\r')) [
  | inl e ↦ rw e tt
  | inr e ↦ rw e (h, tt)
]
strip_cr-OneLine (c ∷ d ∷ s) (h, hs) = (h, strip_cr-OneLine (d ∷ s) hs)

ended_lines-OneLine : (ws : List Text) → All OneLine ws → All OneLine (ended_lines ws)
unfolding ended_lines
ended_lines-OneLine [] h = tt
ended_lines-OneLine ([] ∷ []) h = tt
ended_lines-OneLine ((c ∷ w) ∷ []) h = h
ended_lines-OneLine ([] ∷ v ∷ ws) (h, hs) = (strip_cr-OneLine [] h, ended_lines-OneLine (v ∷ ws) hs)
ended_lines-OneLine ((c ∷ w) ∷ v ∷ ws) (h, hs) =
    (strip_cr-OneLine (c ∷ w) h, ended_lines-OneLine (v ∷ ws) hs)

pub lines-OneLine : (s : Text) → All OneLine (lines s)
unfolding lines
lines-OneLine s = ended_lines-OneLine (split b'\n' s) (split-pieces b'\n' s)
