-- ===== src/Handler/Cancel.antt =====
-- The body of a stream of events in `build_normal_response`: the worker's channel under the token
-- that a reload or the shutdown cancels, read plainly or through the compressor.
use http_nu.Common.{
  ℕ, ◌≤◌, ◌≡◌, refl, false≢true, Bool, true, false, List, [], ◌∷◌, map, Text, Bytes, Option, none,
  some, codes, length, arith,
}
use http_nu.Compression.{new_stream, Encoder, Item, chunk, broken, ended, idle}
use http_nu.Compression.Whole.{polls}
use http_nu.Compression.Broken.{breaks, Reported, polls-Reported}
use http_nu.Logging.Body.{Poll, ready_frame, data_frame, ready_err, ready_none, pending}

-- What the channel's receiver gives at a poll.
pub data FromWorker : Type 0 where
  data_sent : Bytes → FromWorker
  channel_closed : FromWorker
  nothing_yet : FromWorker

abbrev pub sse_cancelled : Text
sse_cancelled = codes "sse cancelled"

-- `try_unfold`, whose `select!` is biased: at each poll, whether the token is cancelled by then, and
-- what the receiver would give. An error or the end leaves no state, and every later poll is the end.
unfoldable pub sse_items : List (Bool × FromWorker) → List Item
sse_items [] = []
sse_items ((true, r) ∷ rest) = broken sse_cancelled ∷ ended ∷ []
sse_items ((false, data_sent b) ∷ rest) = chunk b ∷ sse_items rest
sse_items ((false, channel_closed) ∷ rest) = ended ∷ []
sse_items ((false, nothing_yet) ∷ rest) = idle ∷ sse_items rest

-- A stream that is not one of events reads the receiver alone.
unfoldable pub receiver_items : List FromWorker → List Item
receiver_items [] = []
receiver_items (data_sent b ∷ rest) = chunk b ∷ receiver_items rest
receiver_items (channel_closed ∷ rest) = ended ∷ []
receiver_items (nothing_yet ∷ rest) = idle ∷ receiver_items rest

-- `StreamBody` over the stream itself.
abbrev pub plain_poll : Item → Poll
plain_poll (chunk b) = ready_frame (data_frame b)
plain_poll (broken e) = ready_err e
plain_poll ended = ready_none
plain_poll idle = pending

-- The token is cancelled at a poll before the one at which the channel is found closed.
abbrev pub cancelled : List (Bool × FromWorker) → Bool
cancelled [] = false
cancelled ((true, r) ∷ rest) = true
cancelled ((false, channel_closed) ∷ rest) = false
cancelled ((false, data_sent b) ∷ rest) = cancelled rest
cancelled ((false, nothing_yet) ∷ rest) = cancelled rest

-- The first poll that ends the body for the receiver.
abbrev pub first_end : List Poll → Option Poll
first_end [] = none
first_end (ready_frame f ∷ ps) = first_end ps
first_end (pending ∷ ps) = first_end ps
first_end (p ∷ ps) = some p

plain-first_end :
    (items : List Item) (e : Text)
    → breaks items ≡ some e
    → first_end (map plain_poll items) ≡ some (ready_err e)
plain-first_end [] e h = absurd (ground (arith, h))
plain-first_end (chunk c ∷ rest) e h = plain-first_end rest e h
plain-first_end (idle ∷ rest) e h = plain-first_end rest e h
plain-first_end (ended ∷ rest) e h = absurd (ground (arith, h))
plain-first_end (broken x ∷ rest) e h = ground (arith, h)

breaks-sse_items :
    (given : List (Bool × FromWorker))
    → cancelled given ≡ true
    → breaks (sse_items given) ≡ some sse_cancelled
unfolding sse_items
breaks-sse_items [] h = absurd (false≢true h)
breaks-sse_items ((true, r) ∷ rest) h = refl
breaks-sse_items ((false, channel_closed) ∷ rest) h = absurd (false≢true h)
breaks-sse_items ((false, data_sent b) ∷ rest) h = breaks-sse_items rest h
breaks-sse_items ((false, nothing_yet) ∷ rest) h = breaks-sse_items rest h

-- A stream of events whose token is cancelled before its channel is found closed does not end
-- cleanly: the first poll of the plain body that ends it is the error "sse cancelled", and the
-- compressed body, polled as often as there are items, reports first this error or one of the
-- encoder, never the end.
pub sse_items-cancelled :
    (E : Encoder) (s : E.State) (given : List (Bool × FromWorker)) (n : ℕ)
    → cancelled given ≡ true
    → length (sse_items given) ≤ n
    → (first_end (map plain_poll (sse_items given)) ≡ some (ready_err sse_cancelled))
      × Reported E sse_cancelled (polls E n (new_stream E (sse_items given) s)).0
sse_items-cancelled E s given n h l =
    let b = breaks-sse_items given h in
    (
      plain-first_end (sse_items given) sse_cancelled b,
      polls-Reported E sse_cancelled n (new_stream E (sse_items given) s) refl b l,
    )
