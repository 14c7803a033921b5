-- ===== src/EventStream/Tests.antt =====
-- Two events on their way, over an encoder that copies.
use http_nu.Common.{
  lookup, ◌≡◌, refl, Bool, true, false, List, [], ◌∷◌, map, Text, none, some, codes, utf8, text_eq,
  decimal, arith,
}
use http_nu.Value.{Value, string, Columns, end, column, get, ByteStream, eof, byte_stream}
use http_nu.Sse.{Renderer, lines, value_to_data_string, record_to_string, event_to_string, run}
use http_nu.Sse.Messages.{Readable, told_all, last_id_of, last_retry_of}
use http_nu.Sse.Reading.{resting}
use http_nu.Sse.Client.{receive}
use http_nu.Response.{Printer, extract_http_response_meta}
use http_nu.Worker.{answered, evaluated, eval_thread}
use http_nu.Handler.Normal.{content_type_of, explicit_type, is_sse}
use http_nu.Handler.Cancel.{
  FromWorker, data_sent, channel_closed, nothing_yet, sse_items, plain_poll, first_end,
}
use http_nu.Compression.{poll_next}
use http_nu.Compression.Instance.{copying}
use http_nu.Compression.Whole.{received}
use http_nu.Logging.Body.{ready_none, sent_data}
use http_nu.EventStream.{
  metadata_of, output_of, result_of, text_of, compressed, events_delivered, Gives,
}

abbrev rendered : Value → Text
rendered (string s) = s
rendered _ = codes "?"

abbrev texts : Renderer
texts = record {
  to_expanded_string = rendered;
  json_text = (λ j. codes "json");
  get_type = (λ v. codes "any");
}

abbrev printer : Printer
printer = record { float_text = decimal; json_text = λ j. codes "{}" }

abbrev ticks : List Columns
ticks =
    column (codes "event") (string (codes "t")) (column (codes "data") (string (codes "a")) end)
    ∷ column (codes "data") (string (codes "b")) end
    ∷ []

abbrev parts : ByteStream
parts = record {
  has_reader = true;
  chunks = codes "event: t\ndata: a\n\n" ∷ codes "data: b\n\n" ∷ [];
  ends = eof;
}

abbrev given : List (Bool × FromWorker)
given =
    (false, data_sent (codes "event: t\ndata: a\n\n"))
    ∷ (false, nothing_yet)
    ∷ (false, data_sent (codes "data: b\n\n"))
    ∷ (false, channel_closed)
    ∷ []

parts-Gives : Gives parts (text_of texts ticks none)
unfolding run event_to_string record_to_string text_eq utf8
parts-Gives = (refl, refl, (tt, (tt, tt)), refl)

ticks-Readable :
    Readable texts
      (column (codes "event") (string (codes "t")) (column (codes "data") (string (codes "a")) end))
    × (Readable texts (column (codes "data") (string (codes "b")) end) × Unit {0})
unfolding get text_eq lines value_to_data_string
ticks-Readable =
    ((((refl, tt), (refl, tt)), tt, tt, ((refl, tt), tt)), ((tt, tt, tt, ((refl, tt), tt)), tt))

events_delivered_example :
    (eval_thread printer true 9
        (evaluated (byte_stream parts (metadata_of texts (output_of texts ticks none))))
      ≡ record (answered (result_of texts ticks none)) { chunks = parts.chunks })
    × (is_sse (content_type_of (result_of texts ticks none)) ≡ true)
    × ((sent_data (map plain_poll (sse_items given)) ≡ utf8 (text_of texts ticks none))
        × (first_end (map plain_poll (sse_items given)) ≡ some ready_none))
    × (((compressed texts copying [] given 4).1.finished ≡ true)
        × (copying.decode (received copying (compressed texts copying [] given 4).0)
            ≡ utf8 (text_of texts ticks none)))
    × (receive (text_of texts ticks none) (resting [] none) ≡ (
      told_all texts ticks [],
      resting (last_id_of texts ticks []) (last_retry_of texts ticks none),
    ))
unfolding run explicit_type lookup extract_http_response_meta sse_items poll_next
events_delivered_example =
    events_delivered texts printer copying [] ticks none parts 9 4 given [] none ticks-Readable
      parts-Gives (omega arith) refl (refl, (refl, refl)) (refl, refl, refl) (omega arith) refl
