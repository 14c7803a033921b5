-- ===== src/Logging/Human/Run.antt =====
-- A whole run of the thread of the readable log.
use http_nu.Common.{
  ℕ, suc, ◌+◌, ◌≤◌, ◌<◌, ◌≡◌, refl, subst, Bool, not, inl, inr, List, [], ◌∷◌, ◌++◌, append_assoc,
  reverse, Option, none, some, Text, Bytes, All, length, length-append, Bool-cases, Option-cases,
  some-injective, lookup, text_eq, filter, decimal, arith,
}
use http_nu.Logging.Bucket.{try_consume}
use http_nu.Logging.Line.{RequestState, Clock, lit, format_complete_line}
use http_nu.Logging.Zone.{ActiveZone, clear, print, print_permanent, print_all, redraw}
use http_nu.Logging.Zone.Screen.{
  Framed, Plain, print-Plain, clear-Plain, print_permanent-Plain, Plain-Framed,
}
use http_nu.Logging.Human.{
  RequestData, Event, request, response, complete, started, reloaded, error, print_event, stopping,
  stopped, stop_timed_out, shutdown, Received, event, lagged_by, closed, About, Human, redrawn,
  with_zone, started_lines, admitted, responded, removed, limited, admit, on_request, on_response,
  on_complete, handle_event, on_lagged, print_lines, skip_lines, lag_line, finish, is_shutdown,
  run_human_handler,
}
use http_nu.Logging.Human.Log.{Logs, log_lines, handle_event-Logs}
use http_nu.Logging.Human.Total.{AsciiPaths, AsciiRequest, handle_event_total}

abbrev pub AsciiEvent : Clock × Received → Type 0
AsciiEvent (c, event e) = AsciiRequest e
AsciiEvent _ = Unit

-- No more ids than `n`.
abbrev pub AtMost : ℕ → Human → Type 0
AtMost n h = length h.active_ids ≤ n

redrawn-AtMost :
    (c : Clock) (n : ℕ) (h h' : Human) → AtMost n h → redrawn c h ≡ some h' → AtMost n h'
redrawn-AtMost c n h h' l q = elim (Option-cases (redraw c h.active_ids h.requests h.zone)) [
  | inl p ↦ ground (arith, q, p)
  | inr (z, p) ↦ subst (AtMost n) (some-injective (rw p at q)) l
]

length-filter : (p : Text → Bool) (xs : List Text) → length (filter p xs) ≤ length xs
length-filter p [] = omega arith
length-filter p (x ∷ xs) = elim (Bool-cases (p x)) [
  | inl e ↦ rw e (omega (arith, length-filter p xs))
  | inr e ↦ rw e (omega (arith, length-filter p xs))
]

module _ (c : Clock) (h h' : Human) where
  request-AtMost :
      (id : Text) (r : RequestData)
      → on_request c id r h ≡ some h'
      → AtMost (suc (length h.active_ids)) h'
  unfolding on_request admit
  request-AtMost id r q = elim (Bool-cases (try_consume h.rate_limiter c.now).1) [
    | inl e ↦
        redrawn-AtMost c _ (admitted c id r (limited c h)) h'
          (omega (arith, length-append h.active_ids (id ∷ []))) (rw e at q)
    | inr e ↦ subst (AtMost (suc (length h.active_ids))) (some-injective (rw e at q)) (omega arith)
  ]

  response-AtMost :
      (id : Text) (status latency : ℕ) (o : Option RequestState)
      → on_response c id status latency o h ≡ some h'
      → AtMost (suc (length h.active_ids)) h'
  unfolding on_response
  response-AtMost id status latency none q =
      subst (AtMost (suc (length h.active_ids))) (some-injective q) (omega arith)
  response-AtMost id status latency (some st) q =
      redrawn-AtMost c _ (responded id status latency st h) h' (omega arith) q

  complete-AtMost :
      (id : Text) (bytes duration : ℕ) (o : Option RequestState)
      → on_complete c id bytes duration o h ≡ some h'
      → AtMost (suc (length h.active_ids)) h'
  unfolding on_complete
  complete-AtMost id bytes duration none q =
      subst (AtMost (suc (length h.active_ids))) (some-injective q) (omega arith)
  complete-AtMost id bytes duration (some st) q =
      elim (Option-cases (format_complete_line c st duration bytes)) [
        | inl p ↦ ground (arith, p, q)
        | inr (l, p) ↦
            redrawn-AtMost c _ (removed id l h) h'
              (omega (arith, length-filter (λ x. not (text_eq x id)) h.active_ids)) (rw p at q)
      ]

  said-AtMost :
      (z : ActiveZone) → redrawn c (with_zone z h) ≡ some h' → AtMost (suc (length h.active_ids)) h'
  said-AtMost z q = redrawn-AtMost c _ (with_zone z h) h' (omega arith) q

  kept-AtMost :
      (z : ActiveZone) → some (with_zone z h) ≡ some h' → AtMost (suc (length h.active_ids)) h'
  kept-AtMost z q = subst (AtMost (suc (length h.active_ids))) (some-injective q) (omega arith)

  handle_event-AtMost :
      (a : About) (e : Event)
      → handle_event a c e h ≡ some h'
      → AtMost (suc (length h.active_ids)) h'
  unfolding handle_event
  handle_event-AtMost a (started address ms o) q =
      said-AtMost (print_all (started_lines a address ms o) h.zone) q
  handle_event-AtMost a reloaded q = said-AtMost (print_permanent (lit "reloaded 🔄") h.zone) q
  handle_event-AtMost a (error e) q = said-AtMost (print (lit "ERROR: " ++ e) (clear h.zone)) q
  handle_event-AtMost a (print_event m) q =
      said-AtMost (print_permanent (lit "PRINT: " ++ m) h.zone) q
  handle_event-AtMost a (stopping n) q =
      said-AtMost
        (print_permanent (lit "stopping, " ++ decimal n ++ lit " connection(s) in flight...")
          h.zone)
        q
  handle_event-AtMost a stopped q = kept-AtMost _ q
  handle_event-AtMost a stop_timed_out q = kept-AtMost _ q
  handle_event-AtMost a shutdown q =
      subst (AtMost (suc (length h.active_ids))) (some-injective q) (omega arith)
  handle_event-AtMost a (request id r) q = request-AtMost id r q
  handle_event-AtMost a (response id status headers latency) q =
      response-AtMost id status latency (lookup id h.requests) q
  handle_event-AtMost a (complete id bytes duration) q =
      complete-AtMost id bytes duration (lookup id h.requests) q

print_lines-Plain :
    (ls : List Bytes) (z : ActiveZone) (log : List Bytes)
    → Plain z log
    → (new : List Bytes) × Plain (print_lines ls z) (new ++ log)
print_lines-Plain [] z log p = ([], p)
print_lines-Plain (l ∷ ls) z log p =
    let (new, q) = print_lines-Plain ls (print l z) (l ∷ log) (print-Plain l z log p) in
    (new ++ l ∷ [], rw (append_assoc new (l ∷ []) log) q)

-- What a run leaves: it did not panic, and the log begins with what was there.
abbrev pub Kept : Option Human → List Bytes → Type 0
Kept o log = (h' : Human) × (new : List Bytes) × (o ≡ some h') × Framed h'.zone (new ++ log)

finish-Kept :
    (h : Human) (log : List Bytes)
    → Framed h.zone log
    → h.zone.line_count < 65536
    → Kept (some (finish h)) log
unfolding finish
finish-Kept h log f lt =
    let ls = skip_lines h.skipped ++ lag_line h.lagged in
    let (new, p) = print_lines-Plain ls (clear h.zone) log (clear-Plain h.zone log f lt) in
    (finish h, new, refl, Plain-Framed (print_lines ls (clear h.zone)) (new ++ log) p)

on_lagged-Logs :
    (n : ℕ) (h : Human) (log : List Bytes)
    → Framed h.zone log
    → h.zone.line_count < 65536
    → (line : Bytes) × Logs (on_lagged n h) (line ∷ log)
unfolding on_lagged
on_lagged-Logs n h log f lt =
    let line = lit "⚠ lagged: dropped " ++ decimal n ++ lit " events, cleared in-flight" in
    let (shown, counted) = print_permanent-Plain line h.zone log f lt in
    (
      line,
      (
        Plain-Framed (print_permanent line h.zone) (line ∷ log) (shown, counted),
        omega (arith, counted),
      ),
    )

lagged-Ascii : (n : ℕ) (h : Human) → AsciiPaths (on_lagged n h)
unfolding on_lagged
lagged-Ascii n h = tt

lagged-few :
    (n : ℕ) (h : Human) (rs : List (Clock × Received))
    → length h.active_ids + suc (length rs) + 1 < 65536
    → length (on_lagged n h).active_ids + length rs + 1 < 65536
unfolding on_lagged
lagged-few n h rs lt = omega (arith, lt)

Kept-append : (o : Option Human) (ls log : List Bytes) → Kept o (ls ++ log) → Kept o log
Kept-append o ls log (h', new, e, f) = (h', new ++ ls, e, rw (append_assoc new ls log) f)

-- A run of the log's thread, over any sequence of events, overflows and the end of the channel,
-- does not panic and never removes or changes a line of the log: it leaves the terminal with the
-- lines that the log had, new ones below them, and the counted lines of the zone last. This holds
-- when the log stands above the counted lines of the zone at the start, all paths are of one-byte
-- characters, and the requests in flight and the events together are fewer than 65535.
pub run_human_handler-Kept :
    (a : About) (rs : List (Clock × Received)) (h : Human) (log : List Bytes)
    → Logs h log
    → AsciiPaths h
    → All AsciiEvent rs
    → length h.active_ids + length rs + 1 < 65536
    → Kept (run_human_handler a rs h) log
unfolding run_human_handler
run_human_handler-Kept a [] h log (f, le) p ps lt = (h, [], refl, f)
run_human_handler-Kept a ((c, closed) ∷ rs) h log (f, le) p ps lt =
    finish-Kept h log f (omega (arith, le, lt))
run_human_handler-Kept a ((c, lagged_by n) ∷ rs) h log (f, le) p (_, ps) lt =
    let (line, logs) = on_lagged-Logs n h log f (omega (arith, le, lt)) in
    Kept-append (run_human_handler a rs (on_lagged n h)) (line ∷ []) log (
      run_human_handler-Kept a rs (on_lagged n h) (line ∷ log) logs (lagged-Ascii n h) ps
        (lagged-few n h rs lt))
run_human_handler-Kept a ((c, event e) ∷ rs) h log (f, le) p (r, ps) lt =
    elim (Bool-cases (is_shutdown e)) [
      | inl s ↦ rw s (finish-Kept h log f (omega (arith, le, lt)))
      | inr s ↦
          let (h', q, p') = handle_event_total a c e h p r in
          let ls = reverse (log_lines a c h e) in
          let logs = handle_event-Logs a c e h h' log (f, le) (omega (arith, lt)) q in
          let more = handle_event-AtMost c h h' a e q in
          rw (s, q)
            (Kept-append (run_human_handler a rs h') ls log
              (run_human_handler-Kept a rs h' (ls ++ log) logs p' ps (omega (arith, more, lt))))
    ]
