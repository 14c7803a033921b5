-- ===== src/Worker.antt =====
-- src/worker.rs: the thread that evaluates a request. The evaluation itself is Nushell's: its
-- outcome is an argument. `taken` chunks of a streamed body are taken before the receiver is gone.
pub mod Answer
pub mod Chunks
mod Tests
use http_nu.Common.{
  ℕ, zero, suc, Bool, true, false, not, List, [], ◌∷◌, ◌++◌, Text, Bytes, Option, none, some, codes,
  utf8, if◌then◌else◌, ◌>>=◌, is_some, or_option, head?, is_empty,
}
use http_nu.Value.{
  Value, Columns, nothing, list, columns, binary, error, get, Metadata, ReadEnd, eof, shell_error,
  io_error, ByteStream, PipelineData, empty, value, list_stream, byte_stream,
}
use http_nu.Response.{
  HttpResponseMeta, default_meta, Response, extract_http_response_meta, Printer, value_to_json,
  value_to_bytes, json_bytes,
}

-- Nushell's table of jobs.
pub record JobTable (J : Type 0) : Type 0 where
  pub add_job : Text → J → ℕ × J
  pub remove_job : ℕ → J → J

-- What the chunks of a stream are does not show in the transport: they follow.
pub data ResponseTransport : Type 0 where
  empty_body : ResponseTransport
  full : Bytes → ResponseTransport
  stream : ResponseTransport

pub record PipelineResult : Type 0 where
  pub content_type : Option Text
  pub http_meta : HttpResponseMeta
  pub body : ResponseTransport

pub data Outcome : Type 0 where
  finished : Outcome
  failed : Text → Outcome
  panicked : Outcome

-- What `run_closure` gives.
pub data Evaluation : Type 0 where
  evaluated : PipelineData → Evaluation
  raised : Text → Evaluation
  eval_panic : Evaluation

-- What a run of `inner` does to the world.
pub record Run : Type 0 where
  pub answer : Option PipelineResult
  pub chunks : List Bytes
  pub logged : List Text
  pub outcome : Outcome

abbrev pub html_key : Text
html_key = codes "__html"

abbrev pub text_html : Text
text_html = codes "text/html; charset=utf-8"

abbrev pub application_json : Text
application_json = codes "application/json"

abbrev pub octet_stream : Text
octet_stream = codes "application/octet-stream"

abbrev pub ndjson : Text
ndjson = codes "application/x-ndjson"

unfoldable pub is_jsonl_record : Value → Bool
is_jsonl_record (columns cs) = not (is_some (get html_key cs))
is_jsonl_record _ = false

abbrev pub meta_type : Option Metadata → Option Text
meta_type meta = meta >>= λ m. m.content_type

-- The `match` that infers a content type where the metadata has none.
unfoldable pub infer_content_type : PipelineData → Option Text
infer_content_type (value (columns cs) meta) =
    or_option (meta_type meta)
      (some (if is_some (get html_key cs) then text_html else application_json))
infer_content_type (value (list vs) meta) = or_option (meta_type meta) (some application_json)
infer_content_type (value (binary b) meta) = or_option (meta_type meta) (some octet_stream)
infer_content_type (value v meta) = meta_type meta
infer_content_type (list_stream vs meta) = meta_type meta
infer_content_type empty = none
infer_content_type (byte_stream s meta) = none

abbrev pub answered : PipelineResult → Run
answered r = record { answer = some r; chunks = []; logged = []; outcome = finished }

abbrev pub unanswered : Outcome → Run
unanswered o = record { answer = none; chunks = []; logged = []; outcome = o }

abbrev pub after_chunk : Bytes → Run → Run
after_chunk b r = record r { chunks = b ∷ r.chunks }

-- Reading a byte stream until a read of no bytes, an error, or a failed send.
unfoldable pub stream_bytes : ℕ → PipelineResult → List Bytes → ReadEnd → Run
stream_bytes taken r [] eof = answered r
stream_bytes taken r [] (shell_error e) = record (answered r) { logged = e ∷ [] }
stream_bytes taken r [] (io_error e) = record (answered r) { outcome = failed e }
stream_bytes taken r ([] ∷ rest) end = answered r
stream_bytes zero r ((b ∷ bs) ∷ rest) end = answered r
stream_bytes (suc n) r ((b ∷ bs) ∷ rest) end = after_chunk (b ∷ bs) (stream_bytes n r rest end)

-- A send that finds the receiver gone ends the stream.
abbrev pub send_chunk : ℕ → PipelineResult → Option Bytes → (ℕ → Run) → Run
send_chunk taken r none rest = record (answered r) { outcome = panicked }
send_chunk zero r (some b) rest = answered r
send_chunk (suc n) r (some b) rest = after_chunk b (rest n)

-- The two senders that the thread holds until it passes them to `inner`.
pub record Senders : Type 0 where
  pub meta_tx_opt : Bool
  pub body_tx_opt : Bool

module _ (p : Printer) where
  -- The bytes that `send_value` sends; `none` is a panic.
  unfoldable pub value_bytes : Bool → Value → Option Bytes
  unfolding value_to_bytes value_to_json
  value_bytes true v = json_bytes p (value_to_json v) >>= λ line. some (line ++ b'\n' ∷ [])
  value_bytes false v = value_to_bytes p v

  -- The first value and the loop over the remaining ones do the same.
  unfoldable pub stream_values : ℕ → PipelineResult → Bool → List Value → Run
  unfolding value_bytes
  stream_values taken r use_jsonl [] = answered r
  stream_values taken r use_jsonl (error e ∷ vs) = record (answered r) { logged = e ∷ [] }
  stream_values taken r use_jsonl (v ∷ vs) =
      send_chunk taken r (value_bytes use_jsonl v) (λ n. stream_values n r use_jsonl vs)

  abbrev pub full_body : Option Text → Option Metadata → Option Bytes → Run
  full_body ct meta none = unanswered panicked
  full_body ct meta (some b) =
      answered
        (record { content_type = ct; http_meta = extract_http_response_meta meta; body = full b })

  abbrev pub starts_jsonl : List Value → Bool
  starts_jsonl [] = false
  starts_jsonl (v ∷ vs) = is_jsonl_record v

  abbrev pub read_stream : ℕ → PipelineResult → ByteStream → Run
  read_stream taken r s =
      if s.has_reader
      then stream_bytes taken r s.chunks s.ends
      else record (answered r) { outcome = failed (codes "ByteStream has no reader") }

  -- The `match output` of `inner`.
  unfoldable pub respond : ℕ → PipelineData → Run
  unfolding infer_content_type is_jsonl_record stream_values stream_bytes extract_http_response_meta
  respond taken empty =
      answered (record { content_type = none; http_meta = default_meta; body = empty_body })
  respond taken (value nothing meta) = answered (record {
    content_type = infer_content_type (value nothing meta);
    http_meta = extract_http_response_meta meta;
    body = empty_body;
  })
  respond taken (value (error e) meta) = unanswered (failed e)
  respond taken (value v meta) =
      full_body (infer_content_type (value v meta)) meta (value_to_bytes p v)
  respond taken (list_stream vs meta) =
      let use_jsonl = starts_jsonl vs in
      stream_values taken
        (record {
          content_type =
              if use_jsonl then some ndjson else infer_content_type (list_stream vs meta);
          http_meta = extract_http_response_meta meta;
          body = stream;
        })
        use_jsonl vs
  respond taken (byte_stream s meta) =
      read_stream taken
        (record {
          content_type = or_option (meta_type meta) (some octet_stream);
          http_meta = extract_http_response_meta meta;
          body = stream;
        })
        s

  unfoldable pub inner : ℕ → Evaluation → Run
  unfolding respond
  inner taken (evaluated output) = respond taken output
  inner taken (raised e) = unanswered (failed e)
  inner taken eval_panic = unanswered panicked

  abbrev pub error_message : Outcome → Option Text
  error_message finished = none
  error_message (failed e) = some e
  error_message panicked = some (codes "panic")

  -- The answer to a failed evaluation.
  abbrev pub error_result : Text → PipelineResult
  error_result err = record {
    content_type = some (codes "text/plain; charset=utf-8");
    http_meta = record { status = some 500; headers = [] };
    body = full (utf8 (codes "Script error: " ++ err));
  }

  unfoldable pub report_error : Senders → Run → Option Text → Run
  report_error senders r none = r
  report_error senders r (some err) = record r {
    answer = if senders.body_tx_opt then some (error_result err) else r.answer;
    logged = r.logged ++ err ∷ [];
  }

  -- The body of the thread. `cloned` tells whether the copy of the engine, made before the senders
  -- are taken, succeeded; otherwise it panicked.
  unfoldable pub eval_thread : Bool → ℕ → Evaluation → Run
  unfolding inner report_error
  eval_thread cloned taken ev =
      let r = if cloned then inner taken ev else unanswered panicked in
      let senders : Senders = record { meta_tx_opt = not cloned; body_tx_opt = not cloned } in
      report_error senders r (error_message r.outcome)

  -- `spawn_eval_thread` on the engine's job table: the job, which has a name, is there while the
  -- thread runs and is removed whatever comes of it. With the table meanwhile and behind it.
  unfoldable pub spawn_eval_thread :
      {J : Type 0} → JobTable J → J → Bool → ℕ → Evaluation → Run × J × J
  unfolding eval_thread
  spawn_eval_thread t jobs cloned taken ev =
      let (job_id, during) = t.add_job (codes "HTTP Request") jobs in
      (eval_thread cloned taken ev, during, t.remove_job job_id during)
