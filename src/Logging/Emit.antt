-- ===== src/Logging/Emit.antt =====
-- The functions that log: the event that each sends. A `HashMap` is its list of entries; the
-- milliseconds of a duration are cast to 64 bits. Without a sender nothing is sent.
use http_nu.Common.{
  ℕ, ◌%◌, ◌^◌, Bool, true, false, List, [], ◌∷◌, Option, none, some, Text, Bytes, utf8, insert,
}
use http_nu.Request.{Request}
use http_nu.Logging.Human.{
  RequestData, Event, request, response, complete, started, reloaded, error, print_event, stopping,
  stopped, stop_timed_out, shutdown, StartupOptions,
}

-- `v.to_str().unwrap_or("")`.
abbrev pub text_bytes : Option Text → Bytes
text_bytes none = []
text_bytes (some s) = utf8 s

abbrev pub utf8_of : Option Text → Option Bytes
utf8_of none = none
utf8_of (some s) = some (utf8 s)

abbrev pub shown_ip : {Ip : Type 0} → (Ip → Text) → Option Ip → Option Bytes
shown_ip show none = none
shown_ip show (some ip) = some (utf8 (show ip))

-- `collect` into a map: of a repeated name the last value stays.
unfoldable pub collect_map : List (Text × Option Text) → List (Bytes × Bytes) → List (Bytes × Bytes)
unfolding insert
collect_map [] m = m
collect_map ((k, v) ∷ hs) m = collect_map hs (insert (utf8 k) (text_bytes v) m)

abbrev pub query_bytes : List (Text × Text) → List (Bytes × Bytes)
query_bytes [] = []
query_bytes ((k, v) ∷ q) = (utf8 k, utf8 v) ∷ query_bytes q

-- `RequestData::from`.
unfoldable pub request_data : {Ip : Type 0} → (Ip → Text) → Request Ip → RequestData
unfolding collect_map
request_data show r = record {
  proto = utf8 r.proto;
  method = utf8 r.method;
  remote_ip = shown_ip show r.remote_ip;
  remote_port = r.remote_port;
  trusted_ip = shown_ip show r.trusted_ip;
  headers = collect_map r.headers [];
  uri = utf8 r.uri;
  path = utf8 r.path;
  query = query_bytes r.query;
}

abbrev pub as_u64 : ℕ → ℕ
as_u64 ms = ms % 2 ^ 64

-- `emit`, with or without a sender.
abbrev pub emit : Bool → Event → List Event
emit true e = e ∷ []
emit false e = []

unfoldable pub log_request : {Ip : Type 0} → Bool → (Ip → Text) → Text → Request Ip → List Event
unfolding request_data
log_request sender show id r = emit sender (request id (request_data show r))

unfoldable pub log_response : Bool → Text → ℕ → List (Text × Option Text) → ℕ → List Event
unfolding collect_map
log_response sender id status headers elapsed =
    emit sender (response id status (collect_map headers []) (as_u64 elapsed))

unfoldable pub log_complete : Bool → Text → ℕ → ℕ → List Event
log_complete sender id bytes elapsed = emit sender (complete id bytes (as_u64 elapsed))

unfoldable pub log_started : Bool → Text → ℕ → StartupOptions → List Event
log_started sender address ms options = emit sender (started (utf8 address) (as_u64 ms) options)

unfoldable pub log_error : Bool → Text → List Event
log_error sender message = emit sender (error (utf8 message))

unfoldable pub log_print : Bool → Text → List Event
log_print sender message = emit sender (print_event (utf8 message))

unfoldable pub log_stopping : Bool → ℕ → List Event
log_stopping sender inflight = emit sender (stopping inflight)

-- `log_reloaded`, `log_stopped`, `log_stop_timed_out` and `shutdown`.
abbrev pub log_reloaded : Bool → List Event
log_reloaded sender = emit sender reloaded

abbrev pub log_stopped : Bool → List Event
log_stopped sender = emit sender stopped

abbrev pub log_stop_timed_out : Bool → List Event
log_stop_timed_out sender = emit sender stop_timed_out

abbrev pub log_shutdown : Bool → List Event
log_shutdown sender = emit sender shutdown

-- `init_broadcast`, on a sender that may be set already: the first one stays. The receiver is of the
-- new channel in any case.
unfoldable pub init_broadcast : {T R : Type 0} → Option T → T × R → Option T × R
init_broadcast none (tx, rx) = (some tx, rx)
init_broadcast (some old) (tx, rx) = (some old, rx)

unfoldable pub subscribe_events : {T R : Type 0} → (T → R) → Option T → Option R
subscribe_events subscribe none = none
subscribe_events subscribe (some tx) = some (subscribe tx)
