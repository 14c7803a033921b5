-- ===== src/Worker/Tests.antt =====
-- Runs of the worker.
use http_nu.Common.{◌≡◌, refl, true, false, List, [], ◌∷◌, codes, none, is_some, decimal, utf8}
use http_nu.Value.{Value, string, error, value, other}
use http_nu.Response.{Printer, default_meta}
use http_nu.Worker.{
  PipelineResult, stream, raised, evaluated, eval_thread, stream_values, value_bytes, panicked,
}
use http_nu.Worker.Answer.{eval_thread-answers}
use http_nu.Worker.Chunks.{Streams, sent, stream_values-Streams}

abbrev plain : Printer
plain = record { float_text = decimal; json_text = λ j. codes "{}" }

abbrev streamed : PipelineResult
streamed = record { content_type = none; http_meta = default_meta; body = stream }

abbrev items : List Value
items = string (codes "a") ∷ string (codes "b") ∷ error (codes "no") ∷ string (codes "c") ∷ []

-- A script that fails leaves the request without the answer that is prepared for it.
raised_is_unanswered :
    is_some (eval_thread plain true 9 (raised (codes "no such command"))).answer ≡ false
raised_is_unanswered = eval_thread-answers plain true 9 (raised (codes "no such command"))

eval_thread-answers_example :
    is_some (eval_thread plain true 9 (evaluated (value (other (codes "date")) none))).answer
    ≡ false
eval_thread-answers_example =
    eval_thread-answers plain true 9 (evaluated (value (other (codes "date")) none))

stream_values-Streams_example :
    Streams plain 9 false items (stream_values plain 9 streamed false items)
stream_values-Streams_example = stream_values-Streams plain 9 streamed false items

-- A date behind the first value: the receiver has that value, and the thread panics.
panic_at_a_date :
    ((stream_values plain 9 streamed false
        (string (codes "a") ∷ other (codes "date") ∷ items)).chunks
      ≡ (b'a' ∷ []) ∷ [])
    × ((stream_values plain 9 streamed false
          (string (codes "a") ∷ other (codes "date") ∷ items)).outcome
        ≡ panicked)
unfolding stream_values utf8
panic_at_a_date = (refl, refl)

sent_until_the_error : sent plain false items ≡ (b'a' ∷ []) ∷ (b'b' ∷ []) ∷ []
unfolding value_bytes utf8
sent_until_the_error = refl
