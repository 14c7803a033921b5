-- ===== src/Logging/Human/Log.antt =====
-- The readable log: what is printed stays on the terminal, above the lines of the requests in
-- flight, which alone are redrawn.
use http_nu.Common.{
  ℕ, zero, suc, ◌+◌, ◌≤◌, ◌<◌, ◌≡◌, refl, subst, inl, inr, List, [], ◌∷◌, ◌++◌, reverse, Option,
  none, some, Text, Bytes, length, Bool-cases, Option-cases, some-injective, if◌then◌else◌, lookup,
  decimal, arith,
}
use http_nu.Logging.Bucket.{try_consume}
use http_nu.Logging.Line.{RequestState, Clock, lit, format_complete_line}
use http_nu.Logging.Zone.{ActiveZone, clear, print, print_permanent, print_all, redraw}
use http_nu.Logging.Zone.Screen.{
  Framed, Plain, clear-Plain, print-Plain, print_permanent-Plain, Plain-Framed, print_all-Plain,
  redraw-Framed,
}
use http_nu.Logging.Human.{
  RequestData, Event, request, response, complete, started, reloaded, error, print_event, stopping,
  stopped, stop_timed_out, shutdown, About, Human, started_lines, version_line, banner, skip_line,
  skip_lines, summed, redrawn, with_zone, admitted, responded, removed, say, limited,
  StartupOptions, admit, on_request, on_response, on_complete, handle_event,
}

-- The log so far, the newest line first, stands above the lines of the zone, which are counted and
-- no more than the requests in flight and their heading.
abbrev pub Logs : Human → List Bytes → Type 0
Logs h log = Framed h.zone log × (h.zone.line_count ≤ length h.active_ids + 1)

abbrev pub one_line : Option Bytes → List Bytes
one_line none = []
one_line (some l) = l ∷ []

abbrev pub completed : Clock → ℕ → ℕ → Option RequestState → List Bytes
completed c bytes duration none = []
completed c bytes duration (some st) = one_line (format_complete_line c st duration bytes)

-- The lines that an event adds to the log.
unfoldable pub log_lines : About → Clock → Human → Event → List Bytes
log_lines a c h (started address ms o) = started_lines a address ms o
log_lines a c h reloaded = lit "reloaded 🔄" ∷ []
log_lines a c h (error e) = (lit "ERROR: " ++ e) ∷ []
log_lines a c h (print_event m) = (lit "PRINT: " ++ m) ∷ []
log_lines a c h (stopping n) =
    (lit "stopping, " ++ decimal n ++ lit " connection(s) in flight...") ∷ []
log_lines a c h stopped = (c.timestamp ++ lit " cu l8r") ∷ lit "</http-nu>" ∷ []
log_lines a c h stop_timed_out = lit "stop timed out, forcing exit" ∷ []
log_lines a c h (request id r) =
    if (try_consume h.rate_limiter c.now).1 then skip_lines h.skipped else []
log_lines a c h (response id status headers latency) = []
log_lines a c h (complete id bytes duration) = completed c bytes duration (lookup id h.requests)
log_lines a c h shutdown = []

redrawn-Logs :
    (c : Clock) (h h' : Human) (log : List Bytes)
    → Plain h.zone log
    → redrawn c h ≡ some h'
    → Logs h' log
redrawn-Logs c h h' log (shown, _) e =
    elim (Option-cases (redraw c h.active_ids h.requests h.zone)) [
      | inl p ↦ ground (arith, e, p)
      | inr (z, p) ↦
          subst (λ y. Logs y log) (some-injective (rw p at e))
            (redraw-Framed c h.active_ids h.requests h.zone z log shown p)
    ]

summed-Framed :
    (n : ℕ) (z : ActiveZone) (log : List Bytes)
    → Framed z log
    → z.line_count < 65536
    → Framed (summed n z) (skip_lines n ++ log) × ((summed n z).line_count < 65536)
summed-Framed zero z log f h = (f, h)
summed-Framed (suc n) z log f h =
    let (shown, counted) = print_permanent-Plain (skip_line (suc n)) z log f h in
    (
      Plain-Framed (print_permanent (skip_line (suc n)) z) (skip_line (suc n) ∷ log)
          (shown, counted),
      omega (arith, counted),
    )

reverse-skip_lines : (n : ℕ) → reverse (skip_lines n) ≡ skip_lines n
reverse-skip_lines zero = refl
reverse-skip_lines (suc n) = refl

module _ (c : Clock) (h h' : Human) (log : List Bytes) (f : Framed h.zone log)
    (small : h.zone.line_count < 65536) where
  admit-Logs :
      (id : Text) (r : RequestData)
      → admit c id r h ≡ some h'
      → Logs h' (skip_lines h.skipped ++ log)
  unfolding admit
  admit-Logs id r e =
      let (framed, lt) = summed-Framed h.skipped h.zone log f small in
      redrawn-Logs c (admitted c id r h) h' (skip_lines h.skipped ++ log)
        (clear-Plain (summed h.skipped h.zone) (skip_lines h.skipped ++ log) framed lt) e

  response-Logs :
      (id : Text) (status latency : ℕ) (st : RequestState)
      → on_response c id status latency (some st) h ≡ some h'
      → Logs h' log
  unfolding on_response
  response-Logs id status latency st e =
      redrawn-Logs c (responded id status latency st h) h' log (clear-Plain h.zone log f small) e

  complete-Logs :
      (id : Text) (bytes duration : ℕ) (st : RequestState)
      → on_complete c id bytes duration (some st) h ≡ some h'
      → Logs h' (reverse (completed c bytes duration (some st)) ++ log)
  unfolding on_complete
  complete-Logs id bytes duration st e =
      elim (Option-cases (format_complete_line c st duration bytes)) [
        | inl p ↦ ground (arith, e, p)
        | inr (l, p) ↦ rw p (
            redrawn-Logs c (removed id l h) h' (l ∷ log)
              (print_permanent-Plain l h.zone log f small) (rw p at e))
      ]

said-Logs :
    (c : Clock) (h h' : Human) (ls log : List Bytes) (z : ActiveZone)
    → Plain z (reverse ls ++ log)
    → redrawn c (with_zone z h) ≡ some h'
    → Logs h' (reverse ls ++ log)
said-Logs c h h' ls log z p q = redrawn-Logs c (with_zone z h) h' (reverse ls ++ log) p q

kept-Logs :
    (h h' : Human) (z : ActiveZone) (log : List Bytes)
    → Plain z log
    → some (with_zone z h) ≡ some h'
    → Logs h' log
kept-Logs h h' z log (shown, counted) q =
    subst (λ y. Logs y log) (some-injective q)
      (Plain-Framed z log (shown, counted), omega (arith, counted))

say-Logs :
    (c : Clock) (line : Bytes) (h h' : Human) (log : List Bytes)
    → Framed h.zone log
    → h.zone.line_count < 65536
    → say c line h ≡ some h'
    → Logs h' (line ∷ log)
say-Logs c line h h' log f lt q =
    said-Logs c h h' (line ∷ []) log (print_permanent line h.zone)
      (print_permanent-Plain line h.zone log f lt) q

started-Plain :
    (a : About) (address : Bytes) (ms : ℕ) (o : StartupOptions) (z : ActiveZone) (log : List Bytes)
    → Framed z log
    → z.line_count < 65536
    → Plain
        (print_all (started_lines a address ms o) z)
        (reverse (started_lines a address ms o) ++ log)
unfolding started_lines
started-Plain a address ms o z log f lt =
    print_all-Plain (version_line a) (banner a address ms o) z log f lt

request-Logs :
    (a : About) (c : Clock) (id : Text) (r : RequestData) (h h' : Human) (log : List Bytes)
    → Logs h log
    → length h.active_ids + 1 < 65536
    → on_request c id r h ≡ some h'
    → Logs h' (reverse (log_lines a c h (request id r)) ++ log)
unfolding on_request log_lines
request-Logs a c id r h h' log (f, le) lt q =
    elim (Bool-cases (try_consume h.rate_limiter c.now).1) [
      | inl e ↦
          rw (e, reverse-skip_lines h.skipped)
            (admit-Logs c (limited c h) h' log f (omega (arith, le, lt)) id r (rw e at q))
      | inr e ↦ rw e (subst (λ y. Logs y log) (some-injective (rw e at q)) (f, le))
    ]

-- What the log shows is never overwritten: when the zone's lines are counted and the log stands
-- above them, and fewer than 65535 requests are in flight, an event that does not panic adds
-- exactly its own lines to the log, below those that are there (a request adds the count of the
-- skipped ones before it, and nothing when the rate limiter holds it back), and the zone's lines
-- are counted again.
pub handle_event-Logs :
    (a : About) (c : Clock) (e : Event) (h h' : Human) (log : List Bytes)
    → Logs h log
    → length h.active_ids + 1 < 65536
    → handle_event a c e h ≡ some h'
    → Logs h' (reverse (log_lines a c h e) ++ log)
unfolding handle_event log_lines
handle_event-Logs a c (started address ms o) h h' log (f, le) lt q =
    said-Logs c h h' (started_lines a address ms o) log
      (print_all (started_lines a address ms o) h.zone)
      (started-Plain a address ms o h.zone log f (omega (arith, le, lt))) q
handle_event-Logs a c reloaded h h' log (f, le) lt q =
    say-Logs c (lit "reloaded 🔄") h h' log f (omega (arith, le, lt)) q
handle_event-Logs a c (error e) h h' log (f, le) lt q =
    let p = clear-Plain h.zone log f (omega (arith, le, lt)) in
    said-Logs c h h' ((lit "ERROR: " ++ e) ∷ []) log (print (lit "ERROR: " ++ e) (clear h.zone))
      (print-Plain (lit "ERROR: " ++ e) (clear h.zone) log p) q
handle_event-Logs a c (print_event m) h h' log (f, le) lt q =
    say-Logs c (lit "PRINT: " ++ m) h h' log f (omega (arith, le, lt)) q
handle_event-Logs a c (stopping n) h h' log (f, le) lt q =
    say-Logs c (lit "stopping, " ++ decimal n ++ lit " connection(s) in flight...") h h' log f
      (omega (arith, le, lt)) q
handle_event-Logs a c stopped h h' log (f, le) lt q =
    let bye = c.timestamp ++ lit " cu l8r" in
    let z = print_permanent bye h.zone in
    let p = print_permanent-Plain bye h.zone log f (omega (arith, le, lt)) in
    let cleared = clear-Plain z (bye ∷ log) (Plain-Framed z (bye ∷ log) p) (omega (arith, p.1)) in
    kept-Logs h h' (print (lit "</http-nu>") (clear z)) (lit "</http-nu>" ∷ bye ∷ log)
      (print-Plain (lit "</http-nu>") (clear z) (bye ∷ log) cleared) q
handle_event-Logs a c stop_timed_out h h' log (f, le) lt q =
    let line = lit "stop timed out, forcing exit" in
    kept-Logs h h' (print_permanent line h.zone) (line ∷ log)
      (print_permanent-Plain line h.zone log f (omega (arith, le, lt))) q
handle_event-Logs a c shutdown h h' log (f, le) lt q =
    subst (λ y. Logs y log) (some-injective q) (f, le)
handle_event-Logs a c (request id r) h h' log (f, le) lt q =
    request-Logs a c id r h h' log (f, le) lt q
handle_event-Logs a c (response id status headers latency) h h' log (f, le) lt q =
    elim (Option-cases (lookup id h.requests)) [
      | inl m ↦ subst (λ y. Logs y log) (some-injective (rw m at q)) (f, le)
      | inr (st, m) ↦
          response-Logs c h h' log f (omega (arith, le, lt)) id status latency st (rw m at q)
    ]
handle_event-Logs a c (complete id bytes duration) h h' log (f, le) lt q =
    elim (Option-cases (lookup id h.requests)) [
      | inl m ↦ rw m (subst (λ y. Logs y log) (some-injective (rw m at q)) (f, le))
      | inr (st, m) ↦
          rw m (complete-Logs c h h' log f (omega (arith, le, lt)) id bytes duration st (rw m at q))
    ]
