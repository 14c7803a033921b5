-- ===== src/Sse/Client.antt =====
-- How a client reads a stream of server-sent events: the EventSource algorithm of the HTML standard
-- (lines, fields, dispatch) over the decoded stream, written independently of the server.
use http_nu.Common.{
  Bool, true, false, ◌&&◌, ◌||◌, List, [], ◌∷◌, ◌++◌, Text, codes, Option, some, if◌then◌else◌,
  ◌==◌, leb, text_eq, is_empty,
}

-- The ended lines: a line ends at `\n`, `\r` or `\r\n`. Here `after_cr` says that the last character
-- was a `\r`, and `acc` is the line so far.
unfoldable pub ended_by : Bool → Text → Text → List Text
ended_by after_cr acc [] = []
ended_by after_cr acc (c ∷ s) =
    let next = ended_by false [] s in
    let next_cr = ended_by true [] s in
    let on = ended_by false (acc ++ c ∷ []) s in
    if c == b'\n'
    then (if after_cr then next else acc ∷ next)
    else if c == b'\r'
    then acc ∷ next_cr
    else on

pub record Message : Type 0 where
  pub kind : Text
  pub content : Text
  pub last_event_id : Text

-- The buffers of the client, and the reconnection time that the server set.
pub record Client : Type 0 where
  pub data_buffer : Text
  pub kind_buffer : Text
  pub last_id : Text
  pub retry : Option Text

abbrev pub space_off : Text → Text
space_off [] = []
space_off (c ∷ s) = if c == b' ' then s else c ∷ s

-- A line's field and value, at the first colon, without one space behind it.
unfoldable pub field_of : Text → Text × Text
field_of [] = ([], [])
field_of (c ∷ s) = let (f, v) = field_of s in if c == b':' then ([], space_off s) else (c ∷ f, v)

unfoldable pub has_nul : Text → Bool
has_nul [] = false
has_nul (c ∷ s) = (c == 0) || has_nul s

unfoldable pub all_digits : Text → Bool
all_digits [] = true
all_digits (c ∷ s) = leb b'0' c && leb c b'9' && all_digits s

unfoldable pub set_kind : Text → Client → Client
set_kind v c = record c { kind_buffer = v }

unfoldable pub add_data : Text → Client → Client
add_data v c = record c { data_buffer = c.data_buffer ++ (v ++ b'\n' ∷ []) }

unfoldable pub set_id : Text → Client → Client
unfolding has_nul
set_id v c = record c { last_id = if has_nul v then c.last_id else v }

unfoldable pub set_retry : Text → Client → Client
unfolding all_digits
set_retry v c = record c { retry = if all_digits v then some v else c.retry }

-- A comment has the empty field; an unknown field is left out.
unfoldable pub take_field : Text × Text → Client → Client
unfolding set_kind add_data set_id set_retry
take_field (f, v) c =
    if text_eq f (codes "event")
    then set_kind v c
    else if text_eq f (codes "data")
    then add_data v c
    else if text_eq f (codes "id")
    then set_id v c
    else if text_eq f (codes "retry")
    then set_retry v c
    else c

-- The data without its last line feed.
unfoldable pub without_last : Text → Text
without_last [] = []
without_last (c ∷ []) = []
without_last (c ∷ d ∷ s) = c ∷ without_last (d ∷ s)

abbrev pub kind_or_message : Text → Text
kind_or_message k = if is_empty k then codes "message" else k

unfoldable pub dispatched : Client → List Message
unfolding without_last
dispatched c =
    if is_empty c.data_buffer
    then []
    else (record {
      kind = kind_or_message c.kind_buffer;
      content = without_last c.data_buffer;
      last_event_id = c.last_id;
    })
      ∷ []

abbrev pub reset : Client → Client
reset c = record c { data_buffer = []; kind_buffer = [] }

unfoldable pub take_line : Text → Client → List Message × Client
unfolding dispatched field_of take_field
take_line [] c = (dispatched c, reset c)
take_line (x ∷ l) c = ([], take_field (field_of (x ∷ l)) c)

unfoldable pub take_lines : List Text → Client → List Message × Client
unfolding take_line
take_lines [] c = ([], c)
take_lines (l ∷ ls) c =
    let (ms, c') = take_line l c in let (more, c'') = take_lines ls c' in (ms ++ more, c'')

-- All messages of a stream; what comes behind the last ended line is discarded.
unfoldable pub receive : Text → Client → List Message × Client
unfolding ended_by take_lines
receive s c = take_lines (ended_by false [] s) c
