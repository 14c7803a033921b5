-- ===== src/Logging/Jsonl.antt =====
-- `run_jsonl_handler`: the thread that writes a JSON object per event. A string is its bytes. The
-- standard output takes all that is written; `BufWriter` is the standard library's.
pub mod Lines
mod Tests
use http_nu.Common.{
  ℕ, suc, ◌-◌, pos, Bool, true, false, ◌||◌, List, [], ◌∷◌, ◌++◌, Option, none, some, Text, Bytes,
  ltb, leb, if◌then◌else◌, is_some, length,
}
use http_nu.Value.{
  Json, null, json_bool, json_int, json_string, json_object, Members, no_member, member,
}
use http_nu.Logging.Line.{lit}
use http_nu.Logging.Human.{
  About, StartupOptions, RequestData, Event, request, response, complete, started, reloaded, error,
  print_event, stopping, stopped, stop_timed_out, shutdown, Received, event, lagged_by, closed,
  is_shutdown,
}

abbrev pub num : ℕ → Json
num n = json_int (pos n)

abbrev pub or_null : Option Bytes → Json
or_null none = null
or_null (some s) = json_string s

abbrev pub num_or_null : Option ℕ → Json
num_or_null none = null
num_or_null (some n) = num n

-- A `HashMap<String, String>`.
abbrev pub map_members : List (Bytes × Bytes) → Members
map_members [] = no_member
map_members ((k, v) ∷ m) = member k (json_string v) (map_members m)

abbrev pub map_json : List (Bytes × Bytes) → Json
map_json m = json_object (map_members m)

-- `#[derive(Serialize)]`.
unfoldable pub request_json : RequestData → Json
request_json r = json_object (
    member (lit "proto") (json_string r.proto) (
      member (lit "method") (json_string r.method) (
        member (lit "remote_ip") (or_null r.remote_ip) (
          member (lit "remote_port") (num_or_null r.remote_port) (
            member (lit "trusted_ip") (or_null r.trusted_ip) (
              member (lit "headers") (map_json r.headers) (
                member (lit "uri") (json_string r.uri) (
                  member (lit "path") (json_string r.path)
                    (member (lit "query") (map_json r.query) no_member)))))))))

-- What each object begins with.
abbrev pub stamped : Text → Bytes → Members → Json
stamped stamp message rest =
    json_object
      (member (lit "stamp") (json_string stamp) (member (lit "message") (json_string message) rest))

abbrev pub version_if_store : About → Option Bytes → Option Bytes
version_if_store a none = none
version_if_store a (some store) = a.xs_version

unfoldable pub started_json : About → Text → Bytes → ℕ → StartupOptions → Json
started_json a stamp address ms o = stamped stamp (lit "started") (
    member (lit "address") (json_string address) (
      member (lit "startup_ms") (num ms) (
        member (lit "watch") (json_bool o.watch) (
          member (lit "tls") (or_null o.tls) (
            member (lit "store") (or_null o.store) (
              member (lit "topic") (or_null o.topic) (
                member (lit "expose") (or_null o.expose) (
                  member (lit "services") (json_bool o.services) (
                    member (lit "nu_version") (json_string a.nu_version) (
                      member (lit "xs_version") (or_null (version_if_store a o.store)) (
                        member (lit "datastar_version") (json_string a.datastar_version)
                          no_member)))))))))))

-- `Event::Shutdown` does not come here.
unfoldable pub event_json : About → Text → Event → Json
unfolding request_json started_json
event_json a stamp (request id r) = stamped stamp (lit "request") (
    member (lit "request_id") (json_string id) (
      member (lit "method") (json_string r.method) (
        member (lit "path") (json_string r.path) (
          member (lit "trusted_ip") (or_null r.trusted_ip)
            (member (lit "request") (request_json r) no_member)))))
event_json a stamp (response id status headers latency) = stamped stamp (lit "response") (
    member (lit "request_id") (json_string id) (
      member (lit "status") (num status) (
        member (lit "headers") (map_json headers)
          (member (lit "latency_ms") (num latency) no_member))))
event_json a stamp (complete id bytes duration) = stamped stamp (lit "complete") (
    member (lit "request_id") (json_string id)
      (member (lit "bytes") (num bytes) (member (lit "duration_ms") (num duration) no_member)))
event_json a stamp (started address ms o) = started_json a stamp address ms o
event_json a stamp reloaded = stamped stamp (lit "reloaded") no_member
event_json a stamp (error e) =
    stamped stamp (lit "error") (member (lit "error") (json_string e) no_member)
event_json a stamp (print_event m) =
    stamped stamp (lit "print") (member (lit "content") (json_string m) no_member)
event_json a stamp (stopping n) =
    stamped stamp (lit "stopping") (member (lit "inflight") (num n) no_member)
event_json a stamp stopped = stamped stamp (lit "stopped") no_member
event_json a stamp stop_timed_out = stamped stamp (lit "stop_timed_out") no_member
event_json a stamp shutdown = null

unfoldable pub lagged_json : Text → ℕ → Json
lagged_json stamp n = stamped stamp (lit "lagged") (member (lit "dropped") (num n) no_member)

abbrev pub needs_flush : Event → Bool
needs_flush (started address ms o) = true
needs_flush stopped = true
needs_flush stop_timed_out = true
needs_flush reloaded = true
needs_flush (error e) = true
needs_flush (print_event m) = true
needs_flush _ = false

-- What the standard output has, and what waits in the buffer.
pub record Out : Type 0 where
  pub written : Bytes
  pub buffered : Bytes

abbrev pub flush : Out → Out
flush o = record { written = o.written ++ o.buffered; buffered = [] }

abbrev pub buffer_capacity : ℕ
buffer_capacity = 8192

abbrev pub push_bytes : Bytes → Out → Out
push_bytes b o = record o { buffered = o.buffered ++ b }

abbrev pub write_through : Bytes → Out → Out
write_through b o = record o { written = o.written ++ b }

unfoldable pub write_all : Bytes → Out → Out
write_all b o =
    let spare = buffer_capacity - length o.buffered in
    if ltb (length b) spare
    then push_bytes b o
    else let o' = if ltb spare (length b) then flush o else o in
      if leb buffer_capacity (length b) then write_through b o' else push_bytes b o'

-- `writeln!`, if the object has a text.
unfoldable pub write_line : Option Bytes → Out → Out
unfolding write_all
write_line none o = o
write_line (some line) o = write_all (10 ∷ []) (write_all line o)

-- What is received, the stamp that is made for it, and whether the channel is empty behind it.
pub record Item : Type 0 where
  pub stamp : Text
  pub received : Received
  pub idle : Bool

abbrev pub flush_if : Bool → Out → Out
flush_if true o = flush o
flush_if false o = o

module _ (a : About) (to_string : Json → Option Bytes) where
  -- What is written for an item, and whether the loop breaks at it.
  unfoldable pub line_of : Text → Received → Option Bytes
  unfolding event_json lagged_json
  line_of stamp closed = none
  line_of stamp (lagged_by n) = to_string (lagged_json stamp n)
  line_of stamp (event e) = if is_shutdown e then none else to_string (event_json a stamp e)

  abbrev pub breaks : Received → Bool
  breaks closed = true
  breaks (lagged_by n) = false
  breaks (event e) = is_shutdown e

  -- Whether it flushes.
  abbrev pub flushes : Bool → Option Bytes → Received → Bool
  flushes idle line closed = false
  flushes idle line (lagged_by n) = is_some line
  flushes idle line (event e) = is_shutdown e || needs_flush e || idle

  -- One turn of the loop.
  unfoldable pub turn : Item → Out → Out
  unfolding line_of write_line
  turn i o =
      let line = line_of i.stamp i.received in
      flush_if (flushes i.idle line i.received) (write_line line o)

  unfoldable pub run_jsonl_handler : List Item → Out → Out
  unfolding turn
  run_jsonl_handler [] o = o
  run_jsonl_handler (i ∷ is) o =
      let o' = turn i o in
      let rest = run_jsonl_handler is o' in if breaks i.received then flush o' else rest
