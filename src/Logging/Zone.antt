-- ===== src/Logging/Zone.antt =====
-- `ActiveZone`: the lines of the requests in flight, redrawn below the log. What is written to the
-- terminal is kept, newest first; each line is one row of the terminal.
pub mod Screen
use http_nu.Common.{
  ℕ, zero, suc, ◌%◌, List, [], ◌∷◌, Option, none, some, Text, Bytes, ltb, if◌then◌else◌, ◌>>=◌,
  is_empty, lookup,
}
use http_nu.Logging.Line.{RequestState, Clock, lit, format_active_line}

-- `println!`, and `cursor::MoveUp(n)` with `terminal::Clear(FromCursorDown)`.
pub data Written : Type 0 where
  println : Bytes → Written
  move_up_clear : ℕ → Written

pub record ActiveZone : Type 0 where
  pub stdout : List Written
  pub line_count : ℕ

abbrev pub new_zone : ActiveZone
new_zone = record { stdout = []; line_count = 0 }

-- `self.line_count as u16`.
unfoldable pub clear : ActiveZone → ActiveZone
clear z =
    if ltb 0 z.line_count
    then record { stdout = move_up_clear (z.line_count % 65536) ∷ z.stdout; line_count = 0 }
    else z

unfoldable pub print : Bytes → ActiveZone → ActiveZone
print line z = record z { stdout = println line ∷ z.stdout }

unfoldable pub print_permanent : Bytes → ActiveZone → ActiveZone
unfolding clear print
print_permanent line z = print line (clear z)

abbrev pub print_all : List Bytes → ActiveZone → ActiveZone
print_all [] z = z
print_all (l ∷ ls) z = print_all ls (print_permanent l z)

abbrev pub count_line : Bytes → ActiveZone → ActiveZone
count_line line z = record { stdout = println line ∷ z.stdout; line_count = suc z.line_count }

-- The loop of `redraw`.
abbrev pub draw_found :
    Clock → ActiveZone → Option RequestState → (ActiveZone → Option ActiveZone) → Option ActiveZone
draw_found c z none rest = rest z
draw_found c z (some state) rest = format_active_line c state >>= λ line. rest (count_line line z)

unfoldable pub draw_lines :
    Clock → List Text → List (Text × RequestState) → ActiveZone → Option ActiveZone
unfolding format_active_line lookup
draw_lines c [] requests z = some z
draw_lines c (id ∷ ids) requests z = draw_found c z (lookup id requests) (draw_lines c ids requests)

abbrev pub in_flight : Bytes
in_flight = lit "· · ·  ✈ in flight  · · ·"

unfoldable pub redraw :
    Clock → List Text → List (Text × RequestState) → ActiveZone → Option ActiveZone
unfolding draw_lines
redraw c active_ids requests z =
    let z' = record z { line_count = 0 } in
    if is_empty active_ids
    then some z'
    else draw_lines c active_ids requests (count_line in_flight z')
