-- ===== src/Bus.antt =====
-- src/bus.rs: the in-process bus, and the `.bus sub` command of src/commands.rs that drains a
-- subscription. The channels are tokio's and the standard library's: what a receiver hands out is
-- an argument, in the order in which it is handed out.
pub mod Stream
mod Tests
use http_nu.Common.{
  ℕ, zero, suc, Bool, true, false, List, [], ◌∷◌, Text, Option, none, some, codes, if◌then◌else◌,
  length,
}
use http_nu.Value.{Value, string, columns, column, end}
use http_nu.Glob.{GlobPart, new_matcher, match_parts}

pub record BusEvent (V : Type 0) : Type 0 where
  pub topic : Text
  pub value : V

-- What `broadcast::Receiver::recv` resolves to.
pub data Received (V : Type 0) : Type 0 where
  event : BusEvent V → Received V
  lagged : ℕ → Received V
  closed : Received V

-- `recv` returned, and this is left in the channel; or it still waits.
pub data Recv (V : Type 0) : Type 0 where
  returned : Option (BusEvent V) → List (Received V) → Recv V
  waiting : Recv V

-- The matcher of a subscription: `Bus::subscribe` builds it from the pattern.
unfoldable pub subscribe : Option Text → Option (List GlobPart)
unfolding new_matcher
subscribe none = none
subscribe (some pattern) = some (new_matcher pattern)

unfoldable pub matches : Option (List GlobPart) → Text → Bool
unfolding match_parts
matches none topic = true
matches (some parts) topic = match_parts parts topic

-- One pass of the thread of `.bus sub`, and how it ended.
pub data Ending : Type 0 where
  stopped : Ending
  hung_up : Ending
  blocked : Ending

module _ {V : Type 0} where
  -- `BusSubscription::recv`.
  unfoldable pub recv : Option (List GlobPart) → List (Received V) → Recv V
  recv m [] = waiting
  recv m (event ev ∷ rs) =
      let later = recv m rs in if matches m ev.topic then returned (some ev) rs else later
  recv m (lagged n ∷ rs) = returned none rs
  recv m (closed ∷ rs) = returned none rs

  -- `while let Some(ev) = sub.recv().await { if tx.send(ev).is_err() { break; } }`, where `taken`
  -- sends succeed before the consumer is gone.
  unfoldable pub forward :
      ℕ → ℕ → Option (List GlobPart) → List (Received V) → List (BusEvent V) × Ending
  unfolding recv
  forward zero taken m rs = ([], blocked)
  forward (suc f) taken m rs = elim (recv m rs) [
    | waiting ↦ ([], blocked)
    | returned none rest ↦ ([], stopped)
    | returned (some ev) rest ↦ elim taken [
      | zero ↦ ([], hung_up)
      | suc n ↦ let (evs, ending) = forward f n m rest in (ev ∷ evs, ending)
    ]
  ]

  -- The fuel: each round takes at least one item off the channel.
  unfoldable pub drain : ℕ → Option Text → List (Received V) → List (BusEvent V) × Ending
  unfolding forward subscribe
  drain taken pattern rs = forward (suc (length rs)) taken (subscribe pattern) rs

-- What `recv_timeout` of the list stream of `.bus sub` returns.
pub data Polled : Type 0 where
  polled : BusEvent Value → Polled
  timed_out : Polled
  disconnected : Polled

-- The iterator's next item, and the polls that are left; or it still polls.
pub data Next : Type 0 where
  item : Option Value → List (Bool × Polled) → Next
  polling : Next

abbrev pub event_record : BusEvent Value → Value
event_record ev =
    columns (column (codes "topic") (string ev.topic) (column (codes "value") ev.value end))

-- The loop of the iterator, over whether the signal is set and what is polled then.
unfoldable pub next_item : List (Bool × Polled) → Next
next_item [] = polling
next_item ((true, p) ∷ ps) = item none ((true, p) ∷ ps)
next_item ((false, polled ev) ∷ ps) = item (some (event_record ev)) ps
next_item ((false, timed_out) ∷ ps) = next_item ps
next_item ((false, disconnected) ∷ ps) = item none ps
