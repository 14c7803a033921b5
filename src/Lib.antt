-- ===== src/Lib.antt =====
-- http-nu serves HTTP with Nushell scripts: for each request it evaluates a closure, and turns the
-- value that comes out into a response. This library models its own logic; what it takes from other
-- crates (hyper's header map, tower's ServeDir, the HTTP client, URI parsing, brotli, tokio's
-- channels, Nushell's evaluation and rendering, serde_json's printing, the clocks) is a parameter,
-- with its documented behaviour as the laws of an interface where a theorem relies on it.
--
-- How a request runs: src/handler.rs resolves the client's address (src/request.rs), starts the
-- evaluation thread (src/worker.rs), which encodes the value and its metadata (src/response.rs),
-- and builds the response, a file or a proxied answer from what the thread gives; a streamed body
-- passes through the brotli encoder (src/compression.rs) and through the byte count of
-- src/logging.rs, whose events the two logs show. Scripts talk to each other over src/bus.rs
-- and write server-sent events with `to sse` of src/commands.rs. The script is a file, the standard
-- input (src/main.rs) or a topic (src/store.rs); src/engine.rs makes an engine of it, and `serve` of
-- src/main.rs swaps the engines while it accepts connections (src/listener.rs).
--
-- Common: lists, texts as code points, bytes, 64-bit integers, maps as lists of entries.
-- Glob: `GlobMatcher::new` and `match_parts` of src/bus.rs (`new_matcher`, `match_parts`).
-- Bus: `BusSubscription::recv` and the thread of `.bus sub` (`recv`, `drain`) with its list stream
--   (`next_item`).
-- ClientIp: `resolve_trusted_ip` of src/request.rs.
-- Value: Nushell's values and pipeline data as far as they are taken apart; Value/WellFormed: what
--   makes JSON printable.
-- Response: src/response.rs, under the source's names.
-- Worker: `spawn_eval_thread` of src/worker.rs (`inner`, `eval_thread`). An evaluation's outcome is
--   an argument, and so is the number of chunks that are taken before the receiver is gone.
-- HeaderMap: the interface of hyper's header map that the handler uses, with an instance.
-- Handler: `build_normal_response`, `handle_inner` and `handle` of src/handler.rs; Handler/Stream: the
--   request's body; Handler/Log: what a request logs; Handler/Cancel: the streams of events.
-- Compression: `BrotliStream` of src/compression.rs over the interface `Encoder`;
--   Compression/Whole follows a stream from its start to its end.
-- Logging: of src/logging.rs the token bucket, the lines of the readable log, the active zone,
--   `run_human_handler`, `run_jsonl_handler`, the functions that log, and `LoggingBody`.
-- Sse: `to sse` of src/commands.rs; Sse/Client: the algorithm by which a client reads such a stream,
--   from the HTML standard.
-- Request: `Request` and `request_to_value` of src/request.rs.
-- Reload: `stdin_source`, `file_source` and `--commands` of src/main.rs.
-- Special: `.static`, `.reverse-proxy` and `RESPONSE_TX` of src/commands.rs.
-- Template: the cache of compiled templates, `.mj`, `.mj compile` and `.mj render` of
--   src/commands.rs; Template/Cache compares the cache with the history of the compilations.
-- Markdown: `.md` and `.highlight` of src/commands.rs. Commands: `print`, `.run`, `.bus pub`,
--   `.highlight theme` and `.highlight lang`. Commands/Signatures: how the commands are called.
-- Engine: `parse_closure`, `eval`, `run_closure` and `script_to_engine` of src/engine.rs, over
--   Nushell as the record `Nu`; Engine/Setup: `create_base_engine` of src/main.rs and what it calls.
-- Store: `init`, `topic_source` and its watcher of src/store.rs, which makes its engines with Engine.
-- Serve: `serve` of src/main.rs as the relation `Step`: the accept loop, the shutdown and the task
--   that swaps in the engines of Reload and Store, each step at any time that its guard allows;
--   Serve/Streams: the streams of events beside it.
-- Listener: src/listener.rs, and the address that `serve` logs.
-- Startup: the choice of the script and the options of `main` in src/main.rs; Startup/Main: `main` as
--   a whole; Startup/Signals: `shutdown_signal` and the handler of Ctrl-C.
-- EventStream: a stream of events from `to sse` through Worker, Handler/Cancel and Compression to the
--   client of Sse/Client. Compression/Instance: an encoder that copies, for the runs.
-- Stdlib: `load_http_nu_stdlib` of src/stdlib/mod.rs.
--
-- A panic is a value of its own (`none`, `crashed`, `panicked`). Loops are structural on what they
-- consume; `encode_loop`, `forward` and `stdin_loop` run on fuel, and the theorems about `encode`,
-- `drain` and `stdin_source` show that the fuel given is enough. `decimal` divides by ten
-- with the number itself as fuel. Doubles of the token bucket are counted
-- in units of the least one and rounded to 53 bits, as Logging/F64 says.
--
-- Not modelled: the parse of the arguments by clap, the help texts of the commands,
-- and the adapters of Windows streams, which only call other crates. Each printed line of the readable log
-- is taken as one row of the terminal, and the standard output of the JSON log never fails.
pub mod Common
pub mod Glob
pub mod Bus
pub mod ClientIp
pub mod Value
pub mod Response
pub mod Worker
pub mod HeaderMap
pub mod Handler
pub mod Compression
pub mod Logging
pub mod Sse
pub mod Special
pub mod Reload
pub mod Request
pub mod Markdown
pub mod Template
pub mod Engine
pub mod Store
pub mod Serve
pub mod Listener
pub mod Commands
pub mod Startup
pub mod Stdlib
pub mod EventStream
