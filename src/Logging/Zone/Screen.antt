-- ===== src/Logging/Zone/Screen.antt =====
-- What the terminal shows after the writes of an `ActiveZone`: `clear` removes the lines of the zone
-- and nothing else, as long as their number fits in a `u16`.
use http_nu.Common.{
  ℕ, suc, ◌+◌, ◌%◌, ◌≤◌, ◌<◌, ◌≡◌, refl, sym, ap, false, inl, inr, List, [], ◌∷◌, ◌++◌, reverse,
  reverse-append, append_assoc, Option-cases, some-injective, ◌∙◌, subst, none, some, Text, Bytes,
  length, drop, Bool-cases, ltb, arith, lookup,
}
use http_nu.Logging.Line.{RequestState, Clock, format_active_line}
use http_nu.Logging.Zone.{
  Written, println, move_up_clear, ActiveZone, clear, print, print_permanent, print_all, count_line,
  draw_lines, redraw, in_flight,
}

-- The rows on the terminal, the lowest first.
abbrev pub screen : List Written → List Bytes
screen [] = []
screen (println l ∷ ws) = l ∷ screen ws
screen (move_up_clear n ∷ ws) = drop n (screen ws)

-- The zone's own lines stand below the lines of the log, and their number is counted.
abbrev pub Framed : ActiveZone → List Bytes → Type 0
Framed z log = (zs : List Bytes) × (screen z.stdout ≡ zs ++ log) × (length zs ≡ z.line_count)

drop-length : (xs ys : List Bytes) → drop (length xs) (xs ++ ys) ≡ ys
drop-length [] ys = refl
drop-length (x ∷ xs) ys = drop-length xs ys

length-nil : (zs : List Bytes) → length zs ≡ 0 → zs ≡ []
length-nil [] h = refl
length-nil (z ∷ zs) h = ground (arith, h)

not_zero : (n : ℕ) → ltb 0 n ≡ false → n ≡ 0
not_zero n h = ground (arith, h)

small : (n : ℕ) → n < 65536 → n % 65536 ≡ n
small n h = omega (arith, h)

-- Only lines of the log are shown.
abbrev pub Plain : ActiveZone → List Bytes → Type 0
Plain z log = (screen z.stdout ≡ log) × (z.line_count ≡ 0)

pub clear-Plain :
    (z : ActiveZone) (log : List Bytes) → Framed z log → z.line_count < 65536 → Plain (clear z) log
unfolding clear
clear-Plain z log (zs, shown, counted) h = elim (Bool-cases (ltb 0 z.line_count)) [
  | inl e ↦ rw (e, small z.line_count h, sym counted, shown) (drop-length zs log, refl)
  | inr e ↦
      let empty : zs ≡ [] = length-nil zs (rw (not_zero z.line_count e) at counted) in
      rw e (rw shown (rw empty refl), not_zero z.line_count e)
]

pub print-Plain :
    (l : Bytes) (z : ActiveZone) (log : List Bytes) → Plain z log → Plain (print l z) (l ∷ log)
unfolding print
print-Plain l z log (shown, counted) = (rw shown refl, counted)

pub print_permanent-Plain :
    (l : Bytes) (z : ActiveZone) (log : List Bytes)
    → Framed z log
    → z.line_count < 65536
    → Plain (print_permanent l z) (l ∷ log)
unfolding print_permanent
print_permanent-Plain l z log f h = print-Plain l (clear z) log (clear-Plain z log f h)

pub Plain-Framed : (z : ActiveZone) (log : List Bytes) → Plain z log → Framed z log
Plain-Framed z log (shown, counted) = ([], shown, sym counted)

Plain-small : (z : ActiveZone) (log : List Bytes) → Plain z log → z.line_count < 65536
Plain-small z log (shown, counted) = omega (arith, counted)

pub print_all-Plain :
    (l : Bytes) (ls : List Bytes) (z : ActiveZone) (log : List Bytes)
    → Framed z log
    → z.line_count < 65536
    → Plain (print_all (l ∷ ls) z) (reverse (l ∷ ls) ++ log)
print_all-Plain l [] z log f h = print_permanent-Plain l z log f h
print_all-Plain l (m ∷ ls) z log f h =
    let p = print_permanent-Plain l z log f h in
    let z' = print_permanent l z in
    rw (reverse-append (l ∷ []) (m ∷ ls), append_assoc (reverse (m ∷ ls)) (l ∷ []) log)
      (print_all-Plain m ls z' (l ∷ log) (Plain-Framed z' (l ∷ log) p) (Plain-small z' (l ∷ log) p))

count_line-Framed :
    (l : Bytes) (z : ActiveZone) (log : List Bytes) → Framed z log → Framed (count_line l z) log
count_line-Framed l z log (zs, shown, counted) = (l ∷ zs, ap (λ s. l ∷ s) shown, ap suc counted)

module _ (c : Clock) (id : Text) (ids : List Text) (requests : List (Text × RequestState))
    (z : ActiveZone) where
  draw_none :
      lookup id requests ≡ none → draw_lines c (id ∷ ids) requests z ≡ draw_lines c ids requests z
  unfolding draw_lines
  draw_none m = rw m

  draw_some :
      (st : RequestState) (l : Bytes)
      → lookup id requests ≡ some st
      → format_active_line c st ≡ some l
      → draw_lines c (id ∷ ids) requests z ≡ draw_lines c ids requests (count_line l z)
  unfolding draw_lines
  draw_some st l m p = rw (m, p)

  draw_panic :
      (st : RequestState)
      → lookup id requests ≡ some st
      → format_active_line c st ≡ none
      → draw_lines c (id ∷ ids) requests z ≡ none
  unfolding draw_lines
  draw_panic st m p = rw (m, p)

draw_lines-Framed :
    (c : Clock) (ids : List Text) (requests : List (Text × RequestState)) (z z' : ActiveZone)
    (log : List Bytes)
    → Framed z log
    → draw_lines c ids requests z ≡ some z'
    → Framed z' log × (z'.line_count ≤ length ids + z.line_count)
unfolding draw_lines
draw_lines-Framed c [] requests z z' log f e =
    subst (λ y. Framed y log × (y.line_count ≤ 0 + z.line_count)) (some-injective e)
      (f, omega arith)
draw_lines-Framed c (id ∷ ids) requests z z' log f e = elim (Option-cases (lookup id requests)) [
  | inl m ↦
      let (f', le) =
        draw_lines-Framed c ids requests z z' log f (sym (draw_none c id ids requests z m) ∙ e) in
      (f', omega (arith, le))
  | inr (st, m) ↦ elim (Option-cases (format_active_line c st)) [
    | inl p ↦ ground (arith, e, draw_panic c id ids requests z st m p)
    | inr (l, p) ↦
        let (f', le) =
          draw_lines-Framed c ids requests (count_line l z) z' log (count_line-Framed l z log f)
            (sym (draw_some c id ids requests z st l m p) ∙ e) in
        (f', omega (arith, le))
  ]
]

-- What `redraw` writes below the log is counted, whatever was counted before.
pub redraw-Framed :
    (c : Clock) (ids : List Text) (requests : List (Text × RequestState)) (z z' : ActiveZone)
    (log : List Bytes)
    → screen z.stdout ≡ log
    → redraw c ids requests z ≡ some z'
    → Framed z' log × (z'.line_count ≤ length ids + 1)
unfolding redraw
redraw-Framed c [] requests z z' log shown e =
    subst (λ y. Framed y log × (y.line_count ≤ 0 + 1)) (some-injective e)
      (([], shown, refl), omega arith)
redraw-Framed c (id ∷ ids) requests z z' log shown e =
    draw_lines-Framed c (id ∷ ids) requests (count_line in_flight (record z { line_count = 0 })) z'
      log (count_line-Framed in_flight (record z { line_count = 0 }) log ([], shown, refl)) e
