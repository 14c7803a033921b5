-- ===== src/Sse.antt =====
-- src/commands.rs, `to sse`: records as server-sent events. The rendering of other values and of
-- JSON, and the names of the types, are Nushell's and serde_json's: fields of `Renderer`.
pub mod Conversion
pub mod Lines
pub mod Wire
pub mod Client
pub mod Reading
pub mod Messages
mod Tests
use http_nu.Common.{
  ℕ, ◌⊎◌, inl, inr, Bool, true, false, List, [], ◌∷◌, ◌++◌, Option, none, some, Text, codes, split,
  map, if◌then◌else◌, ◌==◌,
}
use http_nu.Value.{
  Value, nothing, bool, int, float, string, list, columns, binary, error, other, Values, nil, cons,
  Columns, end, column, Json, null, json_bool, json_int, json_float, json_string, json_array,
  json_object, Jsons, no_json, json_cons, Members, no_member, map_insert, get, is_finite, to_list,
  Metadata, PipelineData, empty, value, list_stream, byte_stream,
}

pub record Renderer : Type 0 where
  pub to_expanded_string : Value → Text
  pub json_text : Json → Text
  pub get_type : Value → Text

-- One `\r` before the line's end.
unfoldable pub strip_cr : Text → Text
strip_cr [] = []
strip_cr (c ∷ []) = if c == b'\r' then [] else c ∷ []
strip_cr (c ∷ d ∷ s) = c ∷ strip_cr (d ∷ s)

-- What comes after the last line's end is a line unless it is empty, and keeps its `\r`.
unfoldable pub ended_lines : List Text → List Text
unfolding strip_cr
ended_lines [] = []
ended_lines ([] ∷ []) = []
ended_lines ((c ∷ w) ∷ []) = (c ∷ w) ∷ []
ended_lines (w ∷ v ∷ ws) = strip_cr w ∷ ended_lines (v ∷ ws)

-- `str::lines`.
unfoldable pub lines : Text → List Text
unfolding ended_lines split
lines s = ended_lines (split b'\n' s)

abbrev pub data_prefix : Text
data_prefix = codes "data: "

-- The loop of `emit_data_lines`, before what is emitted next.
unfoldable pub emit_each : List Text → Text → Text
emit_each [] next = next
emit_each (l ∷ ls) next = data_prefix ++ (l ++ b'\n' ∷ emit_each ls next)

unfoldable pub emit_data_lines : Text → Text → Text
unfolding emit_each lines
emit_data_lines s next = emit_each (lines s) next

module _ (r : Renderer) where
  unfoldable mutual
    unfolding is_finite map_insert

    pub value_to_json : Value → Json
    value_to_json nothing = null
    value_to_json (bool b) = json_bool b
    value_to_json (int i) = json_int i
    value_to_json (float x) = if is_finite x then json_float x else null
    value_to_json (string s) = json_string s
    value_to_json (list vs) = json_array (values_to_json vs)
    value_to_json (columns cs) = json_object (columns_to_json cs no_member)
    value_to_json (binary b) = json_string (r.to_expanded_string (binary b))
    value_to_json (error e) = json_string (r.to_expanded_string (error e))
    value_to_json (other o) = json_string (r.to_expanded_string (other o))

    pub values_to_json : Values → Jsons
    values_to_json nil = no_json
    values_to_json (cons v vs) = json_cons (value_to_json v) (values_to_json vs)

    pub columns_to_json : Columns → Members → Members
    columns_to_json end ms = ms
    columns_to_json (column k v cs) ms = columns_to_json cs (map_insert k (value_to_json v) ms)

  unfoldable pub value_to_data_string : Value → Text
  value_to_data_string (string s) = s
  value_to_data_string v = r.json_text (value_to_json v)

  -- `event`, `id` and `retry`, before what is emitted next.
  unfoldable pub emit_field : Text → Option Value → Text → Text
  emit_field name none next = next
  emit_field name (some nothing) next = next
  emit_field name (some v) next = name ++ (r.to_expanded_string v ++ b'\n' ∷ next)

  unfoldable pub emit_items : List Value → Text → Text
  unfolding emit_data_lines value_to_data_string
  emit_items [] next = next
  emit_items (v ∷ vs) next = emit_data_lines (value_to_data_string v) (emit_items vs next)

  unfoldable pub emit_data : Option Value → Text → Text
  unfolding emit_items emit_data_lines value_to_data_string
  emit_data none next = next
  emit_data (some nothing) next = next
  emit_data (some (list vs)) next = emit_items (to_list vs) next
  emit_data (some v) next = emit_data_lines (value_to_data_string v) next

  unfoldable pub record_to_string : Columns → Text
  unfolding emit_field emit_data get
  record_to_string cs = emit_field (codes "event: ") (get (codes "event") cs) (
      emit_field (codes "id: ") (get (codes "id") cs) (
        emit_field (codes "retry: ") (get (codes "retry") cs)
          (emit_data (get (codes "data") cs) (b'\n' ∷ []))))

  -- On the left, the error.
  unfoldable pub event_to_string : Value → Text ⊎ Text
  unfolding record_to_string
  event_to_string (columns cs) = inr (record_to_string cs)
  event_to_string (error e) = inl e
  event_to_string v = inl (codes "expected record, got " ++ r.get_type v)

  -- What `run` returns: an error, one text, or a stream of the events' texts and errors; with the
  -- content type in the metadata.
  pub data Output : Type 0 where
    failed : Text → Output
    one : Text → Metadata → Output
    stream : List (Text ⊎ Text) → Metadata → Output

  unfoldable pub update_metadata : Option Metadata → Metadata
  update_metadata none = record { content_type = some (codes "text/event-stream"); custom = end }
  update_metadata (some md) = record md { content_type = some (codes "text/event-stream") }

  abbrev pub one_event : Metadata → Text ⊎ Text → Output
  one_event md (inl e) = failed e
  one_event md (inr t) = one t md

  unfoldable pub run : PipelineData → Output
  unfolding event_to_string update_metadata
  run (list_stream vs md) = stream (map event_to_string vs) (update_metadata md)
  run (value (list vs) md) = stream (map event_to_string (to_list vs)) (update_metadata md)
  run (value v md) = one_event (update_metadata md) (event_to_string v)
  run empty = one [] (update_metadata none)
  run (byte_stream s md) = failed (codes "expected record input")
