-- ===== src/Sse/Tests.antt =====
-- `to sse` on concrete records.
use http_nu.Common.{
  some, if◌then◌else◌, pos, List, none, ◌≡◌, refl, [], ◌∷◌, map, Text, codes, text_eq,
}
use http_nu.Value.{Value, string, columns, Columns, end, column, get, list_stream}
use http_nu.Value.{int, float, json_object, member, null, no_member}
use http_nu.Value.WellFormed.{WellFormed}
use http_nu.Response.{value_to_json as body_json}
use http_nu.Response.Encoding.{is_json}
use http_nu.Sse.Conversion.{value_to_json-WellFormed}
use http_nu.Sse.{value_to_json, Renderer, record_to_string, lines, value_to_data_string, run}
use http_nu.Sse.Client.{receive}
use http_nu.Sse.Messages.{Readable, told_all, last_id_of, last_retry_of, sent, run-receive}
use http_nu.Sse.Reading.{resting}

abbrev rendered : Value → Text
rendered (string s) = s
rendered _ = codes "?"

abbrev texts : Renderer
texts = record {
  to_expanded_string = rendered;
  json_text = (λ j. codes "json");
  get_type = (λ v. codes "any");
}

abbrev tick : Columns
tick =
    column (codes "event") (string (codes "tick"))
      (column (codes "data") (string (codes "a\nb")) end)

abbrev ticks : List Columns
ticks = tick ∷ tick ∷ []

run-receive_example :
    receive (sent texts (run texts (list_stream (map columns ticks) none))) (resting [] none) ≡ (
      told_all texts ticks [],
      resting (last_id_of texts ticks []) (last_retry_of texts ticks none),
    )
unfolding get text_eq lines value_to_data_string
run-receive_example = run-receive texts ticks none [] none (plain_tick, (plain_tick, tt))
  where
    plain_tick : Readable texts tick
    plain_tick = (
      ((refl, (refl, (refl, (refl, tt)))), (refl, (refl, (refl, (refl, tt))))),
      tt,
      tt,
      ((refl, tt), ((refl, tt), tt)),
    )

tick_received :
    told_all texts (tick ∷ []) []
    ≡ record { kind = codes "tick"; content = codes "a\nb"; last_event_id = [] } ∷ []
unfolding get text_eq lines value_to_data_string
tick_received = refl

tick_on_the_wire : record_to_string texts tick ≡ codes "event: tick\ndata: a\ndata: b\n\n"
unfolding record_to_string text_eq
tick_on_the_wire = refl

-- A line feed in a field starts a line of its own.
injected :
    record_to_string texts (column (codes "event") (string (codes "x\ndata: y")) end)
    ≡ codes "event: x\ndata: y\n\n"
unfolding record_to_string text_eq
injected = refl

-- A carriage return inside a line of the data ends the line for the client.
data_with_cr :
    (receive
      (record_to_string texts (column (codes "data") (string (codes "x\revent: forged")) end))
      (resting [] none)).0
    ≡ record { kind = codes "forged"; content = codes "x"; last_event_id = [] } ∷ []
unfolding record_to_string text_eq receive
data_with_cr = refl

-- Empty data has no line, so that the client gets no message.
empty_data :
    (receive
      (record_to_string texts
        (column (codes "event") (string (codes "tick")) (column (codes "data") (string []) end)))
      (resting [] none)).0
    ≡ []
unfolding record_to_string text_eq receive
empty_data = refl

abbrev twice : Value
twice =
    columns (column (codes "a") (int (pos 1)) (column (codes "a") (float 0x7ff0000000000000) end))

value_to_json-WellFormed_example :
    (body_json twice ≡ (if is_json twice then some (value_to_json texts twice) else none))
    × WellFormed (value_to_json texts twice)
value_to_json-WellFormed_example = value_to_json-WellFormed texts twice

-- The last of two columns of a name stays, and infinity becomes `null`.
twice_converted : value_to_json texts twice ≡ json_object (member (codes "a") null no_member)
unfolding value_to_json text_eq
twice_converted = refl
