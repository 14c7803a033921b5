-- ===== src/Logging/Human/Total.antt =====
-- The readable log does not panic while all paths are of one-byte characters.
use http_nu.Common.{
  ℕ, ◌≡◌, refl, subst, inl, inr, List, [], ◌∷◌, ◌++◌, Option, none, some, Text, Bytes, All,
  Bool-cases, Option-cases, some-injective, lookup, insert, text_eq, decimal, arith,
}
use http_nu.Logging.Bucket.{try_consume}
use http_nu.Logging.Line.{RequestState, Clock, lit, format_active_line, format_complete_line}
use http_nu.Logging.Line.Truncate.{Ascii, truncate_middle_lem}
use http_nu.Logging.Zone.{
  ActiveZone, clear, print, print_permanent, print_all, count_line, draw_lines, in_flight, redraw,
}
use http_nu.Logging.Human.{
  RequestData, Event, request, response, complete, started, reloaded, error, print_event, stopping,
  stopped, stop_timed_out, shutdown, About, Human, redrawn, with_zone, say, started_lines, admitted,
  responded, removed, limited, remove, admit, on_request, on_response, on_complete, handle_event,
}

abbrev pub AsciiPath : Text × RequestState → Type 0
AsciiPath (id, st) = Ascii st.path

abbrev pub AsciiPaths : Human → Type 0
AsciiPaths h = All AsciiPath h.requests

-- The path of a new request.
abbrev pub AsciiRequest : Event → Type 0
AsciiRequest (request id r) = Ascii r.path
AsciiRequest _ = Unit

-- A result that is there, and keeps the paths.
abbrev pub Handled : Option Human → Type 0
Handled o = (h' : Human) × (o ≡ some h') × AsciiPaths h'

format_active_line_total :
    (c : Clock) (st : RequestState)
    → Ascii st.path
    → (l : Bytes) × (format_active_line c st ≡ some l)
unfolding format_active_line
format_active_line_total c st a =
    let (path, e) = (truncate_middle_lem st.path 40 (omega arith)).1 a in rw e (_, refl)

format_complete_line_total :
    (c : Clock) (st : RequestState) (d b : ℕ)
    → Ascii st.path
    → (l : Bytes) × (format_complete_line c st d b ≡ some l)
unfolding format_complete_line
format_complete_line_total c st d b a =
    let (path, e) = (truncate_middle_lem st.path 40 (omega arith)).1 a in rw e (_, refl)

none-ne-some : (st : RequestState) → ¬ (none ≡ some st)
none-ne-some st q = grind arith

lookup-Ascii :
    (id : Text) (st : RequestState) (m : List (Text × RequestState))
    → All AsciiPath m
    → lookup id m ≡ some st
    → Ascii st.path
unfolding lookup
lookup-Ascii id st [] a q = absurd (none-ne-some st q)
lookup-Ascii id st ((j, w) ∷ m) (p, a) q = elim (Bool-cases (text_eq j id)) [
  | inl e ↦ subst (λ (s : RequestState). Ascii s.path) (some-injective (rw e at q)) p
  | inr e ↦ lookup-Ascii id st m a (rw e at q)
]

insert-Ascii :
    (id : Text) (st : RequestState) (m : List (Text × RequestState))
    → Ascii st.path
    → All AsciiPath m
    → All AsciiPath (insert id st m)
unfolding insert
insert-Ascii id st [] p a = (p, a)
insert-Ascii id st ((j, w) ∷ m) p (q, a) = elim (Bool-cases (text_eq j id)) [
  | inl e ↦ rw e (p, a)
  | inr e ↦ rw e (q, insert-Ascii id st m p a)
]

remove-Ascii :
    (id : Text) (m : List (Text × RequestState)) → All AsciiPath m → All AsciiPath (remove id m)
remove-Ascii id [] a = a
remove-Ascii id ((j, w) ∷ m) (q, a) = elim (Bool-cases (text_eq j id)) [
  | inl e ↦ rw e (remove-Ascii id m a)
  | inr e ↦ rw e (q, remove-Ascii id m a)
]

draw_lines_total :
    (c : Clock) (ids : List Text) (requests : List (Text × RequestState)) (z : ActiveZone)
    → All AsciiPath requests
    → (z' : ActiveZone) × (draw_lines c ids requests z ≡ some z')
unfolding draw_lines
draw_lines_total c [] requests z a = (z, refl)
draw_lines_total c (id ∷ ids) requests z a = elim (Option-cases (lookup id requests)) [
  | inl m ↦ rw m (draw_lines_total c ids requests z a)
  | inr (st, m) ↦
      let (l, p) = format_active_line_total c st (lookup-Ascii id st requests a m) in
      rw (m, p) (draw_lines_total c ids requests (count_line l z) a)
]

redraw_total :
    (c : Clock) (ids : List Text) (requests : List (Text × RequestState)) (z : ActiveZone)
    → All AsciiPath requests
    → (z' : ActiveZone) × (redraw c ids requests z ≡ some z')
unfolding redraw
redraw_total c [] requests z a = (record z { line_count = 0 }, refl)
redraw_total c (id ∷ ids) requests z a =
    draw_lines_total c (id ∷ ids) requests (count_line in_flight (record z { line_count = 0 })) a

redrawn_total : (c : Clock) (h : Human) → AsciiPaths h → Handled (redrawn c h)
redrawn_total c h a =
    let (z, e) = redraw_total c h.active_ids h.requests h.zone a in (with_zone z h, rw e refl, a)

said_total : (c : Clock) (line : Bytes) (h : Human) → AsciiPaths h → Handled (say c line h)
said_total c line h a = redrawn_total c (with_zone (print_permanent line h.zone) h) a

request_total :
    (c : Clock) (id : Text) (r : RequestData) (h : Human)
    → AsciiPaths h
    → Ascii r.path
    → Handled (on_request c id r h)
unfolding on_request admit
request_total c id r h a p = elim (Bool-cases (try_consume h.rate_limiter c.now).1) [
  | inl e ↦
      rw e (redrawn_total c (admitted c id r (limited c h)) (insert-Ascii id _ h.requests p a))
  | inr e ↦ rw e (_, refl, a)
]

-- When the paths of the requests in flight and of a new one are of one-byte characters, no event
-- makes the thread of the log panic: each is handled, and the paths in flight stay such.
pub handle_event_total :
    (a : About) (c : Clock) (e : Event) (h : Human)
    → AsciiPaths h
    → AsciiRequest e
    → (h' : Human) × (handle_event a c e h ≡ some h') × AsciiPaths h'
unfolding handle_event on_response on_complete
handle_event_total a c (started address ms o) h p r =
    redrawn_total c (with_zone (print_all (started_lines a address ms o) h.zone) h) p
handle_event_total a c reloaded h p r = said_total c (lit "reloaded 🔄") h p
handle_event_total a c (error e) h p r =
    redrawn_total c (with_zone (print (lit "ERROR: " ++ e) (clear h.zone)) h) p
handle_event_total a c (print_event m) h p r = said_total c (lit "PRINT: " ++ m) h p
handle_event_total a c (stopping n) h p r =
    said_total c (lit "stopping, " ++ decimal n ++ lit " connection(s) in flight...") h p
handle_event_total a c stopped h p r = (_, refl, p)
handle_event_total a c stop_timed_out h p r = (_, refl, p)
handle_event_total a c shutdown h p r = (h, refl, p)
handle_event_total a c (request id d) h p r = request_total c id d h p r
handle_event_total a c (response id status headers latency) h p r =
    elim (Option-cases (lookup id h.requests)) [
      | inl m ↦ rw m (h, refl, p)
      | inr (st, m) ↦ rw m (
          redrawn_total c (responded id status latency st h)
            (insert-Ascii id _ h.requests (lookup-Ascii id st h.requests p m) p))
    ]
handle_event_total a c (complete id bytes duration) h p r =
    elim (Option-cases (lookup id h.requests)) [
      | inl m ↦ rw m (h, refl, p)
      | inr (st, m) ↦
          let (l, e) =
            format_complete_line_total c st duration bytes (lookup-Ascii id st h.requests p m) in
          rw (m, e) (redrawn_total c (removed id l h) (remove-Ascii id h.requests p))
    ]
