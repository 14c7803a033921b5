-- ===== src/EventStream.antt =====
-- Events end to end: the records of a script through `to sse` (src/commands.rs), the evaluation thread
-- (src/worker.rs), the handler's body (src/handler.rs), compressed or not (src/compression.rs), to a
-- client. Nushell's byte stream between the first two is an argument.
mod Tests
use http_nu.Common.{
  ℕ, zero, suc, ◌≤◌, ◌≡◌, refl, sym, ap, ◌∙◌, subst, Bool, true, false, false≢true, List, [], ◌∷◌,
  ◌++◌, map, All, Text, Bytes, Option, none, some, utf8, codes, length, arith, append_assoc,
  text_eq, or_option, ◌>>=◌,
}
use http_nu.Value.{Columns, columns, Metadata, byte_stream, list_stream, ByteStream, ReadEnd, eof}
use http_nu.Sse.{Renderer, Output, failed, one, stream, event_to_string, update_metadata, run}
use http_nu.Sse.Messages.{Readable, told_all, last_id_of, last_retry_of, sent, run-receive}
use http_nu.Sse.Reading.{resting}
use http_nu.Sse.Client.{receive}
use http_nu.Response.{Printer, extract_http_response_meta}
use http_nu.Worker.{
  PipelineResult, stream as stream_body, Run, evaluated, answered, after_chunk, stream_bytes,
  respond, eval_thread,
}
use http_nu.Handler.Normal.{content_type_of, explicit_type, is_sse}
use http_nu.Handler.Cancel.{
  FromWorker, data_sent, channel_closed, nothing_yet, sse_items, plain_poll, first_end,
}
use http_nu.Compression.{
  Encoder, Item, chunk, broken, ended, idle, Polled, BrotliStream, new_stream,
}
use http_nu.Compression.Whole.{polls, received, no_error, polls-received}
use http_nu.Compression.Leaves.{ends, all_data}
use http_nu.Logging.Body.{Poll, ready_none, sent_data}

abbrev pub joined : List Bytes → Bytes
joined [] = []
joined (b ∷ bs) = b ++ joined bs

abbrev NonEmpty : Bytes → Type 0
NonEmpty [] = ⊥
NonEmpty (c ∷ b) = Unit

-- A byte stream that gives a text: its reads give the text's bytes, in parts that are not empty.
abbrev pub Gives : ByteStream → Text → Type 0
Gives s t =
    (s.has_reader ≡ true) × (joined s.chunks ≡ utf8 t) × All NonEmpty s.chunks × (s.ends ≡ eof)

stream_bytes-eof :
    (taken : ℕ) (r : PipelineResult) (cs : List Bytes)
    → All NonEmpty cs
    → length cs ≤ taken
    → stream_bytes taken r cs eof ≡ record (answered r) { chunks = cs }
unfolding stream_bytes
stream_bytes-eof taken r [] h l = refl
stream_bytes-eof zero r (c ∷ cs) h l = absurd (omega (arith, l))
stream_bytes-eof (suc n) r ([] ∷ cs) (h, hs) l = absurd h
stream_bytes-eof (suc n) r ((b ∷ c) ∷ cs) (h, hs) l =
    ap (after_chunk (b ∷ c)) (stream_bytes-eof n r cs hs (omega (arith, l)))

-- The handler takes these parts until it finds the channel closed, the token not being cancelled.
abbrev pub Takes : List (Bool × FromWorker) → List Bytes → Type 0
Takes [] bs = ⊥
Takes ((true, r) ∷ rest) bs = ⊥
Takes ((false, channel_closed) ∷ rest) bs = bs ≡ []
Takes ((false, nothing_yet) ∷ rest) bs = Takes rest bs
Takes ((false, data_sent b) ∷ rest) [] = ⊥
Takes ((false, data_sent b) ∷ rest) (c ∷ bs) = (b ≡ c) × Takes rest bs

-- The items are the parts and the end.
abbrev Carries : List Item → List Bytes → Type 0
Carries items bs =
    (all_data items ≡ joined bs)
    × (ends items ≡ true)
    × (sent_data (map plain_poll items) ≡ joined bs)
    × (first_end (map plain_poll items) ≡ some ready_none)

sse_items-Carries :
    (given : List (Bool × FromWorker)) (bs : List Bytes)
    → Takes given bs
    → Carries (sse_items given) bs
unfolding sse_items
sse_items-Carries [] bs h = absurd h
sse_items-Carries ((true, r) ∷ rest) bs h = absurd h
sse_items-Carries ((false, channel_closed) ∷ rest) bs h =
    (ap joined (sym h), refl, ap joined (sym h), refl)
sse_items-Carries ((false, nothing_yet) ∷ rest) bs h = sse_items-Carries rest bs h
sse_items-Carries ((false, data_sent b) ∷ rest) [] h = absurd h
sse_items-Carries ((false, data_sent b) ∷ rest) (c ∷ bs) (e, h) =
    let (d, n, p, q) = sse_items-Carries rest bs h in
    (
      ap (λ x. x ++ all_data (sse_items rest)) e ∙ ap (λ x. c ++ x) d,
      n,
      ap (λ x. x ++ sent_data (map plain_poll (sse_items rest))) e ∙ ap (λ x. c ++ x) p,
      q,
    )

-- The result that a byte stream is answered with.
abbrev pub streamed : Option Metadata → PipelineResult
streamed meta = record {
  content_type = or_option (meta >>= λ m. m.content_type) (some (codes "application/octet-stream"));
  http_meta = extract_http_response_meta meta;
  body = stream_body;
}

module _ (p : Printer) where
  eval_thread-chunks :
      (taken : ℕ) (s : ByteStream) (t : Text) (meta : Option Metadata)
      → Gives s t
      → length s.chunks ≤ taken
      → eval_thread p true taken (evaluated (byte_stream s meta))
        ≡ record (answered (streamed meta)) { chunks = s.chunks }
  unfolding eval_thread
  eval_thread-chunks taken s t meta (rd, j, ne, e) l =
      rw (rd, e, stream_bytes-eof taken (streamed meta) s.chunks ne l) refl

module _ (r : Renderer) where
  -- The metadata that `to sse` gives its output.
  abbrev pub metadata_of : Output r → Option Metadata
  metadata_of (failed e) = none
  metadata_of (one t md) = some md
  metadata_of (stream ts md) = some md

  -- What `to sse` makes of a stream of records, the thread's answer to it, and its text.
  abbrev pub output_of : List Columns → Option Metadata → Output r
  output_of css md = run r (list_stream (map columns css) md)

  abbrev pub result_of : List Columns → Option Metadata → PipelineResult
  result_of css md = streamed (metadata_of (output_of css md))

  abbrev pub text_of : List Columns → Option Metadata → Text
  text_of css md = sent r (output_of css md)

  -- The polls of the compressed body.
  abbrev pub compressed :
      (E : Encoder) → E.State → List (Bool × FromWorker) → ℕ → List Polled × BrotliStream E
  compressed E st given n = polls E n (new_stream E (sse_items given) st)

  -- An encoder in its first state.
  abbrev pub Fresh : (E : Encoder) → E.State → Type 0
  Fresh E st = (E.emitted st ≡ []) × (E.fed st ≡ []) × (E.decode [] ≡ [])

  event_type :
      (css : List Columns) (md : Option Metadata)
      → explicit_type (result_of css md).http_meta.headers ≡ none
      → is_sse (content_type_of (result_of css md)) ≡ true
  unfolding run content_type_of text_eq
  event_type css none h = rw h refl
  event_type css (some md) h = rw h refl

  -- Records that a script streams through `to sse` arrive. When Nushell's byte stream gives their text,
  -- the script sets no content type of its own, and the handler takes all parts before its token is
  -- cancelled, then: the thread answers with a stream of events and sends each part once, in order;
  -- the plain body carries the bytes of the text and ends; the compressed body decodes to the same bytes
  -- where no poll reports an error, and is finished after as many polls as there are items; and a client
  -- of the HTML standard reads from the text the messages of the records, whose fields hold no line ends
  -- and whose data holds no lone carriage return. The data of a message is that of its record; where it is
  -- a list, the items' lines, one item after the other.
  pub events_delivered :
      (p : Printer) (E : Encoder) (st : E.State) (css : List Columns) (md : Option Metadata)
      (s : ByteStream) (taken n : ℕ) (given : List (Bool × FromWorker)) (id : Text)
      (time : Option Text)
      → All (Readable r) css
      → Gives s (text_of css md)
      → length s.chunks ≤ taken
      → explicit_type (result_of css md).http_meta.headers ≡ none
      → Takes given s.chunks
      → Fresh E st
      → length (sse_items given) ≤ n
      → no_error E (compressed E st given n).0 ≡ true
      → (eval_thread p true taken (evaluated (byte_stream s (metadata_of (output_of css md))))
          ≡ record (answered (result_of css md)) { chunks = s.chunks })
        × (is_sse (content_type_of (result_of css md)) ≡ true)
        × ((sent_data (map plain_poll (sse_items given)) ≡ utf8 (text_of css md))
            × (first_end (map plain_poll (sse_items given)) ≡ some ready_none))
        × (((compressed E st given n).1.finished ≡ true)
            × (E.decode (received E (compressed E st given n).0) ≡ utf8 (text_of css md)))
        × (receive (text_of css md) (resting id time)
            ≡ (told_all r css id, resting (last_id_of r css id) (last_retry_of r css time)))
  events_delivered p E st css md s taken n given id time ok g l x tk (e, f, d) k ne =
      let (a, m, b, c) = sse_items-Carries given s.chunks tk in
      let (fin, dec) = polls-received E (sse_items given) st n e f d m k ne in
      (
        eval_thread-chunks p taken s (text_of css md) (metadata_of (output_of css md)) g l,
        event_type css md x,
        (b ∙ g.1, c),
        (fin, dec ∙ a ∙ g.1),
        run-receive r css md id time ok,
      )
