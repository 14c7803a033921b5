-- ===== src/Sse/Messages.antt =====
-- What a client of the server reads from a stream of records.
use http_nu.Common.{
  ◌≡◌, refl, ap, ◌∙◌, false, inl, inr, ◌⊎◌, List, [], ◌∷◌, ◌++◌, map, Option, none, some, Text,
  codes, All, append-nil,
}
use http_nu.Value.{
  Value, nothing, bool, int, float, string, list, columns, binary, error, other, Columns, get,
  to_list, Metadata, list_stream,
}
use http_nu.Sse.{
  Renderer, data_prefix, value_to_data_string, record_to_string, event_to_string, Output, failed,
  one, stream, run,
}
use http_nu.Sse.Lines.{OneLine, lines-OneLine}
use http_nu.Sse.Wire.{
  write, append-write, text_line, field_text, item_lines, data_lines, record_lines,
  record_to_string-write,
}
use http_nu.Sse.Client.{ended_by, Message, take_lines, receive}
use http_nu.Sse.Reading.{
  NoReturn, Plain, ended_by-write, then_messages, take_lines-append, new_kind, new_id, new_retry,
  take_event, take_id, take_retry, take_data, message_of, dispatched-message_of, resting,
  All-append, is_plain-Plain,
}

module _ (r : Renderer) where
  -- The fields' texts as they are rendered.
  abbrev kind_of : Columns → Option Text
  kind_of cs = field_text r (get (codes "event") cs)

  abbrev id_of : Columns → Option Text
  id_of cs = field_text r (get (codes "id") cs)

  abbrev retry_of : Columns → Option Text
  retry_of cs = field_text r (get (codes "retry") cs)

  abbrev data_of : Columns → List Text
  data_of cs = data_lines r (get (codes "data") cs)

  -- A record as the client sees it: one message of its kind with its lines of data, or none without
  -- data. The identifier and the reconnection time stay as they are unless the record sets them.
  abbrev pub told : Columns → Text → List Message
  told cs id = message_of (new_kind (kind_of cs) []) (new_id (id_of cs) id) (data_of cs)

  abbrev pub told_all : List Columns → Text → List Message
  told_all [] id = []
  told_all (cs ∷ css) id = told cs id ++ told_all css (new_id (id_of cs) id)

  abbrev pub last_id_of : List Columns → Text → Text
  last_id_of [] id = id
  last_id_of (cs ∷ css) id = last_id_of css (new_id (id_of cs) id)

  abbrev pub last_retry_of : List Columns → Option Text → Option Text
  last_retry_of [] time = time
  last_retry_of (cs ∷ css) time = last_retry_of css (new_retry (retry_of cs) time)

  abbrev PlainText : Option Text → Type 0
  PlainText none = Unit
  PlainText (some t) = Plain t

  -- The fields are one line each, and no line of the data holds a carriage return.
  abbrev pub Readable : Columns → Type 0
  Readable cs =
      PlainText (kind_of cs)
      × PlainText (id_of cs)
      × PlainText (retry_of cs)
      × All NoReturn (data_of cs)

  take_record :
      (cs : Columns) (id : Text) (time : Option Text)
      → take_lines (record_lines r cs) (resting id time)
        ≡ (told cs id, resting (new_id (id_of cs) id) (new_retry (retry_of cs) time))
  unfolding take_lines
  take_record cs id time =
      rw
        (
          take_lines-append (text_line (codes "event: ") (kind_of cs)),
          take_event (kind_of cs),
          take_lines-append (text_line (codes "id: ") (id_of cs)),
          take_id (id_of cs),
          take_lines-append (text_line (codes "retry: ") (retry_of cs)),
          take_retry (retry_of cs),
          take_lines-append (map (λ l. data_prefix ++ l) (data_of cs)),
          take_data (data_of cs),
        )
        (ap (λ ms. (ms, resting (new_id (id_of cs) id) (new_retry (retry_of cs) time)))
          (append-nil _
            ∙ dispatched-message_of (data_of cs) (record {
              data_buffer = [];
              kind_buffer = new_kind (kind_of cs) [];
              last_id = new_id (id_of cs) id;
              retry = new_retry (retry_of cs) time;
            })))

  data_lines-OneLine : (o : Option Value) → All OneLine (data_lines r o)
  data_lines-OneLine none = tt
  data_lines-OneLine (some nothing) = tt
  data_lines-OneLine (some (list vs)) = items (to_list vs)
    where
      items : (vs : List Value) → All OneLine (item_lines r vs)
      items [] = tt
      items (v ∷ vs) = All-append OneLine _ _ (lines-OneLine (value_to_data_string r v)) (items vs)
  data_lines-OneLine (some (bool v)) = lines-OneLine (value_to_data_string r (bool v))
  data_lines-OneLine (some (int v)) = lines-OneLine (value_to_data_string r (int v))
  data_lines-OneLine (some (float v)) = lines-OneLine (value_to_data_string r (float v))
  data_lines-OneLine (some (string v)) = lines-OneLine (value_to_data_string r (string v))
  data_lines-OneLine (some (columns v)) = lines-OneLine (value_to_data_string r (columns v))
  data_lines-OneLine (some (binary v)) = lines-OneLine (value_to_data_string r (binary v))
  data_lines-OneLine (some (error v)) = lines-OneLine (value_to_data_string r (error v))
  data_lines-OneLine (some (other v)) = lines-OneLine (value_to_data_string r (other v))

  text_line-Plain :
      (name : Text) (o : Option Text) → Plain name → PlainText o → All Plain (text_line name o)
  text_line-Plain name none h k = tt
  text_line-Plain name (some t) (h, h') (k, k') =
      ((All-append _ name t h k, All-append _ name t h' k'), tt)

  prefixed-Plain :
      (ls : List Text)
      → All OneLine ls
      → All NoReturn ls
      → All Plain (map (λ l. data_prefix ++ l) ls)
  prefixed-Plain [] h k = tt
  prefixed-Plain (l ∷ ls) (h, hs) (k, ks) = (
    (
      All-append _ data_prefix l (is_plain-Plain data_prefix refl).0 h,
      All-append _ data_prefix l (is_plain-Plain data_prefix refl).1 k,
    ),
    prefixed-Plain ls hs ks,
  )

  record_lines-Plain : (cs : Columns) → Readable cs → All Plain (record_lines r cs)
  record_lines-Plain cs (h, j, k, d) =
      All-append Plain (text_line (codes "event: ") (kind_of cs)) _
        (text_line-Plain (codes "event: ") (kind_of cs) (is_plain-Plain (codes "event: ") refl) h)
        (All-append Plain (text_line (codes "id: ") (id_of cs)) _
          (text_line-Plain (codes "id: ") (id_of cs) (is_plain-Plain (codes "id: ") refl) j)
          (All-append Plain (text_line (codes "retry: ") (retry_of cs)) _
            (text_line-Plain (codes "retry: ") (retry_of cs) (is_plain-Plain (codes "retry: ") refl)
              k)
            (All-append Plain (map (λ l. data_prefix ++ l) (data_of cs)) _
              (prefixed-Plain (data_of cs) (data_lines-OneLine (get (codes "data") cs)) d)
              ((tt, tt), tt))))

  -- The texts that a stream of events carries up to an error.
  abbrev pub stream_text : List (Text ⊎ Text) → Text
  stream_text [] = []
  stream_text (inl e ∷ rest) = []
  stream_text (inr t ∷ rest) = t ++ stream_text rest

  abbrev pub sent : Output r → Text
  sent (failed e) = []
  sent (one t md) = t
  sent (stream ts md) = stream_text ts

  receive_records :
      (css : List Columns) (id : Text) (time : Option Text)
      → All Readable css
      → receive (stream_text (map (event_to_string r) (map columns css))) (resting id time)
        ≡ (told_all css id, resting (last_id_of css id) (last_retry_of css time))
  unfolding receive ended_by take_lines event_to_string
  receive_records [] id time h = refl
  receive_records (cs ∷ css) id time (h, hs) =
      let more = stream_text (map (event_to_string r) (map columns css)) in
      let id' = new_id (id_of cs) id in
      let time' = new_retry (retry_of cs) time in
      let text : record_to_string r cs ++ more ≡ write (record_lines r cs) more =
        rw (record_to_string-write r cs) (append-write (record_lines r cs) [] more) in
      ap (λ t. take_lines (ended_by false [] t) (resting id time)) text
      ∙ ap (λ ls. take_lines ls (resting id time))
          (ended_by-write (record_lines r cs) more (record_lines-Plain cs h))
      ∙ take_lines-append (record_lines r cs) (ended_by false [] more) (resting id time)
      ∙ ap (λ m. then_messages m (take_lines (ended_by false [] more))) (take_record cs id time)
      ∙ ap (λ m. (told cs id ++ m.0, m.1)) (receive_records css id' time' hs)

  -- Records that are streamed through `to sse` reach a client of the HTML standard: for each record
  -- in order, it dispatches one message with the record's `event` as its kind (`message` without
  -- one), the latest `id` so far, and the lines of the data joined by line feeds, where a list as the
  -- data has the lines of its items, one item after the other; or none when the data has no line. Between two records and at the end nothing stays in its buffers, and the last
  -- `retry` of digits sets its time. This needs `event`, `id` and `retry` without line ends and data
  -- without a carriage return inside a line.
  pub run-receive :
      (css : List Columns) (md : Option Metadata) (id : Text) (time : Option Text)
      → All Readable css
      → receive (sent (run r (list_stream (map columns css) md))) (resting id time)
        ≡ (told_all css id, resting (last_id_of css id) (last_retry_of css time))
  unfolding run
  run-receive css md id time h = receive_records css id time h
