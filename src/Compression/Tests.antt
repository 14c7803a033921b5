-- ===== src/Compression/Tests.antt =====
-- Runs of the compressor, over an encoder that copies.
use http_nu.Common.{Bool, map, some, List, ◌≡◌, refl, true, false, [], ◌∷◌, codes, arith}
use http_nu.Compression.{
  new_stream, Item, chunk, broken, idle, ended, frame, source_error, BrotliStream, poll_next,
}
use http_nu.Compression.Broken.{Reported}
use http_nu.Logging.Body.{ready_err}
use http_nu.Handler.Cancel.{
  FromWorker, data_sent, nothing_yet, channel_closed, sse_cancelled, sse_items, plain_poll,
  first_end, sse_items-cancelled,
}
use http_nu.Compression.Instance.{copying}
use http_nu.Compression.Poll.{poll_next-Delivers, Delivers}
use http_nu.Compression.Whole.{polls, received, no_error, polls-received}

abbrev burst : BrotliStream copying
burst = record {
  inner = chunk (codes "ab") ∷ chunk (codes "c") ∷ ended ∷ [];
  encoder = [];
  finished = false;
}

abbrev cut : BrotliStream copying
cut = record {
  inner = chunk (codes "ab") ∷ broken (codes "cancelled") ∷ [];
  encoder = [];
  finished = false;
}

burst_frame : (poll_next copying burst).0 ≡ frame (codes "abc")
unfolding poll_next
burst_frame = refl

cut_error : (poll_next copying cut).0 ≡ source_error (codes "cancelled")
unfolding poll_next
cut_error = refl

poll_next-Delivers_example : Delivers copying [] (codes "abc") (poll_next copying burst)
poll_next-Delivers_example = poll_next-Delivers copying burst refl

abbrev burst_items : List Item
burst_items = chunk (codes "ab") ∷ chunk (codes "c") ∷ idle ∷ chunk (codes "d") ∷ ended ∷ []

burst_no_error : no_error copying (polls copying 5 (new_stream copying burst_items [])).0 ≡ true
unfolding poll_next
burst_no_error = refl

polls-received_example :
    ((polls copying 5 (new_stream copying burst_items [])).1.finished ≡ true)
    × (copying.decode (received copying (polls copying 5 (new_stream copying burst_items [])).0)
        ≡ codes "abcd")
polls-received_example =
    polls-received copying burst_items [] 5 refl refl refl refl (omega arith) burst_no_error

abbrev reloaded_stream : List (Bool × FromWorker)
reloaded_stream =
    (false, data_sent (codes "data: 1\n\n")) ∷ (false, nothing_yet) ∷ (true, channel_closed) ∷ []

sse_items-cancelled_example :
    (first_end (map plain_poll (sse_items reloaded_stream)) ≡ some (ready_err sse_cancelled))
    × Reported copying sse_cancelled
        (polls copying 9 (new_stream copying (sse_items reloaded_stream) [])).0
unfolding sse_items
sse_items-cancelled_example = sse_items-cancelled copying [] reloaded_stream 9 refl (omega arith)
