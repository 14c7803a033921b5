-- ===== src/Logging/Human.antt =====
-- `run_human_handler`: the thread that writes the readable log. `none` is a panic of the thread.
-- What the build, the process and the clock give is in `About` (of `Banner`) and `Clock`.
pub mod Log
pub mod Table
pub mod Total
pub mod Run
use http_nu.Common.{
  ℕ, zero, suc, ◌+◌, Bool, true, false, not, ◌&&◌, List, [], ◌∷◌, ◌++◌, Option, none, some, Text,
  Bytes, ltb, if◌then◌else◌, ◌>>=◌, is_empty, is_some, lookup, insert, text_eq, filter, decimal,
  cons_some, map,
}
use http_nu.Logging.F64.{of_nat}
use http_nu.Logging.Bucket.{TokenBucket, new_bucket, try_consume}
use http_nu.Logging.Line.{RequestState, Clock, lit, format_complete_line}
use http_nu.Logging.Zone.{ActiveZone, new_zone, clear, print, print_permanent, print_all, redraw}
pub use http_nu.Logging.Banner.{About, StartupOptions}
unfoldable pub use http_nu.Logging.Banner.{started_lines, version_line, banner}

pub record RequestData : Type 0 where
  pub proto : Bytes
  pub method : Bytes
  pub remote_ip : Option Bytes
  pub remote_port : Option ℕ
  pub trusted_ip : Option Bytes
  pub headers : List (Bytes × Bytes)
  pub uri : Bytes
  pub path : Bytes
  pub query : List (Bytes × Bytes)

pub data Event : Type 0 where
  request : Text → RequestData → Event
  response : Text → ℕ → List (Bytes × Bytes) → ℕ → Event
  complete : Text → ℕ → ℕ → Event
  started : Bytes → ℕ → StartupOptions → Event
  reloaded : Event
  error : Bytes → Event
  print_event : Bytes → Event
  stopping : ℕ → Event
  stopped : Event
  stop_timed_out : Event
  shutdown : Event

-- What `rx.blocking_recv()` returns.
pub data Received : Type 0 where
  event : Event → Received
  lagged_by : ℕ → Received
  closed : Received

pub record Human : Type 0 where
  pub zone : ActiveZone
  pub requests : List (Text × RequestState)
  pub active_ids : List Text
  pub rate_limiter : TokenBucket
  pub skipped : ℕ
  pub lagged : ℕ

unfoldable pub new_human : ℕ → Human
unfolding new_bucket
new_human now = record {
  zone = new_zone;
  requests = [];
  active_ids = [];
  rate_limiter = new_bucket (of_nat 40) (of_nat 20) now;
  skipped = 0;
  lagged = 0;
}

-- `HashMap::remove`.
abbrev pub remove : Text → List (Text × RequestState) → List (Text × RequestState)
remove k m = filter (λ (e : Text × RequestState). not (text_eq e.0 k)) m

abbrev pub skip_line : ℕ → Bytes
skip_line n = lit "... skipped " ++ decimal n ++ lit " requests"

abbrev pub new_state : Clock → RequestData → RequestState
new_state c r = record {
  method = r.method;
  path = r.path;
  trusted_ip = r.trusted_ip;
  start_time = c.now;
  status = none;
  latency_ms = none;
}

abbrev pub with_zone : ActiveZone → Human → Human
with_zone z h = record h { zone = z }

-- `zone.redraw(&active_ids, &requests)` at the end of an arm.
abbrev pub redrawn : Clock → Human → Option Human
redrawn c h = redraw c h.active_ids h.requests h.zone >>= λ z. some (with_zone z h)

abbrev pub summed : ℕ → ActiveZone → ActiveZone
summed zero z = z
summed (suc n) z = print_permanent (skip_line (suc n)) z

abbrev pub admitted : Clock → Text → RequestData → Human → Human
admitted c id r h = record h {
  zone = clear (summed h.skipped h.zone);
  requests = insert id (new_state c r) h.requests;
  active_ids = h.active_ids ++ id ∷ [];
  skipped = 0;
}

-- The arm of `Event::Request` behind the rate limiter.
unfoldable pub admit : Clock → Text → RequestData → Human → Option Human
unfolding redraw insert clear print_permanent
admit c id r h = redrawn c (admitted c id r h)

abbrev pub limited : Clock → Human → Human
limited c h = record h { rate_limiter = (try_consume h.rate_limiter c.now).0 }

unfoldable pub on_request : Clock → Text → RequestData → Human → Option Human
unfolding admit try_consume
on_request c id r h =
    if (try_consume h.rate_limiter c.now).1
    then admit c id r (limited c h)
    else some (record (limited c h) { skipped = suc h.skipped })

abbrev pub responded : Text → ℕ → ℕ → RequestState → Human → Human
responded id status latency st h = record h {
  zone = clear h.zone;
  requests = insert id (record st { status = some status; latency_ms = some latency }) h.requests;
}

unfoldable pub on_response : Clock → Text → ℕ → ℕ → Option RequestState → Human → Option Human
unfolding redraw insert clear
on_response c id status latency none h = some h
on_response c id status latency (some st) h = redrawn c (responded id status latency st h)

abbrev pub removed : Text → Bytes → Human → Human
removed id line h = record h {
  zone = print_permanent line h.zone;
  requests = remove id h.requests;
  active_ids = filter (λ x. not (text_eq x id)) h.active_ids;
}

unfoldable pub on_complete : Clock → Text → ℕ → ℕ → Option RequestState → Human → Option Human
unfolding redraw print_permanent format_complete_line
on_complete c id bytes duration none h = some h
on_complete c id bytes duration (some st) h =
    format_complete_line c st duration bytes >>= λ line. redrawn c (removed id line h)

abbrev pub say : Clock → Bytes → Human → Option Human
say c line h = redrawn c (with_zone (print_permanent line h.zone) h)

-- One arm of `match event`, `Event::Shutdown` aside.
unfoldable pub handle_event : About → Clock → Event → Human → Option Human
unfolding on_request on_response on_complete started_lines redraw print print_permanent clear lookup
handle_event a c (started address ms o) h =
    redrawn c (with_zone (print_all (started_lines a address ms o) h.zone) h)
handle_event a c reloaded h = say c (lit "reloaded 🔄") h
handle_event a c (error e) h = redrawn c (with_zone (print (lit "ERROR: " ++ e) (clear h.zone)) h)
handle_event a c (print_event m) h = say c (lit "PRINT: " ++ m) h
handle_event a c (stopping n) h =
    say c (lit "stopping, " ++ decimal n ++ lit " connection(s) in flight...") h
handle_event a c stopped h = some (
    with_zone
      (print (lit "</http-nu>") (clear (print_permanent (c.timestamp ++ lit " cu l8r") h.zone))) h)
handle_event a c stop_timed_out h =
    some (with_zone (print_permanent (lit "stop timed out, forcing exit") h.zone) h)
handle_event a c (request id r) h = on_request c id r h
handle_event a c (response id status headers latency) h =
    on_response c id status latency (lookup id h.requests) h
handle_event a c (complete id bytes duration) h =
    on_complete c id bytes duration (lookup id h.requests) h
handle_event a c shutdown h = some h

-- The arm of `RecvError::Lagged`.
unfoldable pub on_lagged : ℕ → Human → Human
unfolding print_permanent
on_lagged n h = record h {
  lagged = h.lagged + n;
  requests = [];
  active_ids = [];
  zone =
      print_permanent (lit "⚠ lagged: dropped " ++ decimal n ++ lit " events, cleared in-flight")
        h.zone;
}

abbrev pub lag_line : ℕ → List Bytes
lag_line zero = []
lag_line (suc n) = (lit "⚠ total lagged: " ++ decimal (suc n) ++ lit " events dropped") ∷ []

abbrev pub skip_lines : ℕ → List Bytes
skip_lines zero = []
skip_lines (suc n) = skip_line (suc n) ∷ []

abbrev pub print_lines : List Bytes → ActiveZone → ActiveZone
print_lines [] z = z
print_lines (l ∷ ls) z = print_lines ls (print l z)

-- The final summaries.
unfoldable pub finish : Human → Human
unfolding clear print
finish h = record h {
  zone = print_lines (skip_lines h.skipped ++ lag_line h.lagged) (clear h.zone);
}

abbrev pub is_shutdown : Event → Bool
is_shutdown shutdown = true
is_shutdown _ = false

-- `Event::Shutdown` breaks the loop; behind any other event it goes on.
abbrev pub next_event : Bool → Human → Option Human → (Human → Option Human) → Option Human
next_event true h handled onward = some (finish h)
next_event false h handled onward = handled >>= onward

-- The loop, over what is received and the clock at each. When nothing more is received, it waits.
unfoldable pub run_human_handler : About → List (Clock × Received) → Human → Option Human
unfolding handle_event on_lagged finish
run_human_handler a [] h = some h
run_human_handler a ((c, closed) ∷ rs) h = some (finish h)
run_human_handler a ((c, lagged_by n) ∷ rs) h = run_human_handler a rs (on_lagged n h)
run_human_handler a ((c, event e) ∷ rs) h =
    next_event (is_shutdown e) h (handle_event a c e h) (run_human_handler a rs)
