-- ===== src/Logging/Jsonl/Tests.antt =====
-- The JSON log with objects that are printed as their message.
use http_nu.Common.{
  ◌≡◌, refl, true, false, List, [], ◌∷◌, ◌++◌, Option, none, some, Bytes, lookup, text_eq,
}
use http_nu.Value.{Json, json_string, json_object, member}
use http_nu.Logging.Line.{lit}
use http_nu.Logging.Human.{About, event, stopped, stopping}
use http_nu.Logging.Jsonl.{Out, Item, run_jsonl_handler}
use http_nu.Logging.Jsonl.Lines.{lines, run_jsonl_handler-lines}

abbrev about : About
about = record {
  version = lit "0.1";
  pid = 7;
  rfc2822 = lit "now";
  nu_version = lit "0.2";
  xs_version = none;
  datastar_version = lit "1";
}

abbrev message : Json → Option Bytes
message (json_object (member k j (member l (json_string s) ms))) = some s
message j = none

abbrev empty_out : Out
empty_out = record { written = []; buffered = [] }

-- The line of `stopping` is written with that of `stopped`.
abbrev two_items : List Item
two_items =
    record { stamp = []; received = event (stopping 1); idle = false }
    ∷ record { stamp = []; received = event stopped; idle = false }
    ∷ []

run_jsonl_handler-lines_example :
    ((run_jsonl_handler about message two_items empty_out).buffered ≡ [])
    × ((run_jsonl_handler about message two_items empty_out).written
        ≡ (empty_out.written ++ empty_out.buffered) ++ lines about message two_items)
run_jsonl_handler-lines_example =
    run_jsonl_handler-lines about message
      (record { stamp = []; received = event (stopping 1); idle = false } ∷ [])
      (record { stamp = []; received = event stopped; idle = false }) empty_out tt

written_lines :
    (run_jsonl_handler about message two_items empty_out).written ≡ lit "stopping\nstopped\n"
unfolding run_jsonl_handler http_nu.Common.utf8
written_lines = refl

-- `stopping` alone stays in the buffer when more is to come.
kept_back :
    (run_jsonl_handler about message
      (record { stamp = []; received = event (stopping 1); idle = false } ∷ [])
      empty_out).written
    ≡ []
unfolding run_jsonl_handler http_nu.Common.utf8
kept_back = refl
