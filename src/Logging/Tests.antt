-- ===== src/Logging/Tests.antt =====
-- The logging of src/logging.rs on concrete events.
use http_nu.Common.{
  ◌^◌, ◌==◌, true, false, ℕ, ◌*◌, ◌≤◌, ◌≡◌, refl, List, [], ◌∷◌, ◌++◌, reverse, Option, none, some,
  Text, Bytes, codes, length, text_eq, utf8, arith,
}
use http_nu.Logging.F64.{of_nat, add, sub, mul, div, as_secs_f64}
use http_nu.Logging.Bucket.{TokenBucket, new_bucket, try_consume}
use http_nu.Logging.Line.{RequestState, Clock, lit, truncate_middle}
use http_nu.Logging.Line.Truncate.{Ascii, truncate_middle_lem}
use http_nu.Logging.Zone.{println, in_flight}
use http_nu.Logging.Human.{
  reloaded, Received, event, lagged_by, closed, run_human_handler, complete, About, Human,
  handle_event,
}
use http_nu.Logging.Human.Log.{Logs, log_lines, handle_event-Logs}
use http_nu.Logging.Human.Table.{Tracked, handle_event-Tracked}
use http_nu.Logging.Human.Total.{AsciiPaths, handle_event_total}
use http_nu.Logging.Human.Run.{Kept, run_human_handler-Kept}

abbrev second : ℕ
second = 1_000_000_000

-- A tenth is the double next to it, and three of them are not three tenths.
a_tenth : div (of_nat 1) (of_nat 10) ≡ 3_602_879_701_896_397 * 2 ^ 1019
unfolding div of_nat
a_tenth = refl

three_tenths :
    (add (div (of_nat 1) (of_nat 10)) (div (of_nat 2) (of_nat 10)) == div (of_nat 3) (of_nat 10))
    ≡ false
unfolding add div of_nat
three_tenths = refl

-- Two requests at once, the third comes too early, and the fourth after the refill.
abbrev bucket_at : List ℕ → TokenBucket
bucket_at [] = new_bucket (of_nat 2) (of_nat 1) 0
bucket_at (now ∷ earlier) = (try_consume (bucket_at earlier) now).0

third_is_skipped :
    ((try_consume (bucket_at (0 ∷ 0 ∷ [])) 10_000_000).1 ≡ false)
    × ((try_consume (bucket_at (10_000_000 ∷ 0 ∷ 0 ∷ [])) second).1 ≡ true)
unfolding try_consume new_bucket of_nat add sub mul div as_secs_f64
third_is_skipped = (refl, refl)

abbrev long_path : Bytes
long_path = lit "/abcdefghijklmnopqrstuvwxyz/0123456789/end"

truncate_middle_lem_example :
    ((r : Bytes)
      → truncate_middle (b'/' ∷ b'a' ∷ b'b' ∷ b'c' ∷ b'd' ∷ b'e' ∷ []) 5 ≡ some r
      → length r ≤ 5)
    × (Ascii (b'/' ∷ b'a' ∷ b'b' ∷ b'c' ∷ b'd' ∷ b'e' ∷ [])
        → (r : Bytes) × (truncate_middle (b'/' ∷ b'a' ∷ b'b' ∷ b'c' ∷ b'd' ∷ b'e' ∷ []) 5 ≡ some r))
truncate_middle_lem_example =
    truncate_middle_lem (b'/' ∷ b'a' ∷ b'b' ∷ b'c' ∷ b'd' ∷ b'e' ∷ []) 5 (omega arith)

shortened_path : truncate_middle long_path 11 ≡ some (lit "/abc.../end")
unfolding truncate_middle utf8
shortened_path = refl

-- Two bytes for the second character: the cut would split it.
cut_in_a_character : truncate_middle (lit "/éabcdefgh") 7 ≡ none
unfolding truncate_middle utf8
cut_in_a_character = refl

abbrev noon : Clock
noon = record { now = 5 * second; timestamp = lit "12:00:00.000"; seconds = (λ n. lit "   5.0") }

abbrev about : About
about = record {
  version = lit "0.1";
  pid = 7;
  rfc2822 = lit "now";
  nu_version = lit "0.2";
  xs_version = none;
  datastar_version = lit "1";
}

abbrev get_request : RequestState
get_request = record {
  method = lit "GET";
  path = lit "/";
  trusted_ip = none;
  start_time = 0;
  status = some 200;
  latency_ms = some 3;
}

abbrev id : Text
id = codes "0a"

abbrev one_in_flight : Human
one_in_flight = record {
  zone = record {
    stdout = println (lit "x") ∷ println in_flight ∷ println (lit "reloaded") ∷ [];
    line_count = 2;
  };
  requests = (id, get_request) ∷ [];
  active_ids = id ∷ [];
  rate_limiter = new_bucket (of_nat 40) (of_nat 20) 0;
  skipped = 0;
  lagged = 0;
}

abbrev or_human : Option Human → Human
or_human none = one_in_flight
or_human (some h) = h

abbrev after_complete : Human
after_complete = or_human (handle_event about noon (complete id 10 4) one_in_flight)

handle_event-Logs_example :
    Logs after_complete
      (reverse (log_lines about noon one_in_flight (complete id 10 4)) ++ lit "reloaded" ∷ [])
unfolding handle_event text_eq utf8
handle_event-Logs_example =
    handle_event-Logs about noon (complete id 10 4) one_in_flight after_complete
      (lit "reloaded" ∷ []) ((lit "x" ∷ in_flight ∷ [], refl, refl), omega arith) (omega arith) refl

handle_event-Tracked_example : Tracked after_complete
unfolding handle_event text_eq utf8
handle_event-Tracked_example =
    handle_event-Tracked about noon (complete id 10 4) one_in_flight after_complete refl tt refl

handle_event_total_example :
    (h' : Human) × (handle_event about noon (complete id 10 4) one_in_flight ≡ some h')
    × AsciiPaths h'
unfolding utf8
handle_event_total_example =
    handle_event_total about noon (complete id 10 4) one_in_flight ((omega arith, tt), tt) tt

abbrev history : List (Clock × Received)
history =
    (noon, event (complete id 10 4))
    ∷ (noon, lagged_by 3)
    ∷ (noon, event reloaded)
    ∷ (noon, closed)
    ∷ []

run_human_handler-Kept_example :
    Kept (run_human_handler about history one_in_flight) (lit "reloaded" ∷ [])
unfolding utf8
run_human_handler-Kept_example =
    run_human_handler-Kept about history one_in_flight (lit "reloaded" ∷ [])
      ((lit "x" ∷ in_flight ∷ [], refl, refl), omega arith) ((omega arith, tt), tt)
      (tt, (tt, (tt, (tt, tt)))) (omega arith)
