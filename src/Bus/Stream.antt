-- ===== src/Bus/Stream.antt =====
-- A subscription delivers every matching event, in order, up to the first gap.
use http_nu.Common.{
  ℕ, zero, suc, ◌<◌, ◌≡◌, refl, inl, inr, Bool, true, false, List, [], ◌∷◌, Text, Option, none,
  some, if◌then◌else◌, length, filter, take, ltb, Bool-cases, arith,
}
use http_nu.Glob.{GlobPart, glob_matches}
use http_nu.Bus.{
  BusEvent, Received, event, lagged, closed, Recv, returned, waiting, subscribe, matches, Ending,
  stopped, hung_up, blocked, recv, forward, drain,
}

module _ {V : Type 0} where
  -- The events that reach the subscriber's receiver before it lags or is closed.
  abbrev pub before_gap : List (Received V) → List (BusEvent V)
  before_gap [] = []
  before_gap (event ev ∷ rs) = ev ∷ before_gap rs
  before_gap (lagged n ∷ rs) = []
  before_gap (closed ∷ rs) = []

  abbrev pub has_gap : List (Received V) → Bool
  has_gap [] = false
  has_gap (event ev ∷ rs) = has_gap rs
  has_gap (lagged n ∷ rs) = true
  has_gap (closed ∷ rs) = true

  abbrev pub delivered : Option (List GlobPart) → List (Received V) → List (BusEvent V)
  delivered m rs = filter (λ ev. matches m ev.topic) (before_gap rs)

  -- What one `recv` does, in terms of what is still to be delivered.
  abbrev Receives : Option (List GlobPart) → List (Received V) → Recv V → Type 0
  Receives m rs waiting = (delivered m rs ≡ []) × (has_gap rs ≡ false)
  Receives m rs (returned none rest) = (delivered m rs ≡ []) × (has_gap rs ≡ true)
  Receives m rs (returned (some ev) rest) =
      (delivered m rs ≡ ev ∷ delivered m rest)
      × (has_gap rs ≡ has_gap rest)
      × (length rest < length rs)

  Receives-weaken :
      (m : Option (List GlobPart)) (ev : BusEvent V) (rs : List (Received V)) (r : Recv V)
      → matches m ev.topic ≡ false
      → Receives m rs r
      → Receives m (event ev ∷ rs) r
  Receives-weaken m ev rs waiting e h = rw e h
  Receives-weaken m ev rs (returned none rest) e h = rw e h
  Receives-weaken m ev rs (returned (some x) rest) e h = rw e (h.0, h.1, omega arith)

  recv-Receives : (m : Option (List GlobPart)) (rs : List (Received V)) → Receives m rs (recv m rs)
  unfolding recv
  recv-Receives m [] = (refl, refl)
  recv-Receives m (event ev ∷ rs) = elim (Bool-cases (matches m ev.topic)) [
    | inl e ↦ rw e (rw e, refl, omega arith)
    | inr e ↦ rw e (Receives-weaken m ev rs (recv m rs) e (recv-Receives m rs))
  ]
  recv-Receives m (lagged n ∷ rs) = (refl, refl)
  recv-Receives m (closed ∷ rs) = (refl, refl)

  -- What a consumer that takes `n` events gets, and how the forwarding thread ends.
  abbrev pub promised : ℕ → List (BusEvent V) → Bool → List (BusEvent V) × Ending
  promised n evs gap =
      (take n evs, if ltb n (length evs) then hung_up else if gap then stopped else blocked)

  promised-cons :
      (n : ℕ) (ev : BusEvent V) (evs : List (BusEvent V)) (gap : Bool)
      → promised (suc n) (ev ∷ evs) gap ≡ (ev ∷ (promised n evs gap).0, (promised n evs gap).1)
  promised-cons n ev evs gap = ground arith

  forward-round :
      (f : ℕ) (m : Option (List GlobPart))
      → ((n : ℕ) (rest : List (Received V))
          → length rest < f
          → forward f n m rest ≡ promised n (delivered m rest) (has_gap rest))
      → (n : ℕ) (rs : List (Received V)) (r : Recv V) → length rs < suc f
      → recv m rs ≡ r
      → Receives m rs r
      → forward (suc f) n m rs ≡ promised n (delivered m rs) (has_gap rs)
  unfolding forward
  forward-round f m ih zero rs waiting h e k = rw (e, forward, k.0, k.1) (ground arith)
  forward-round f m ih (suc n) rs waiting h e k = rw (e, forward, k.0, k.1) (ground arith)
  forward-round f m ih zero rs (returned none rest) h e k = rw (e, forward, k.0, k.1) (ground arith)
  forward-round f m ih (suc n) rs (returned none rest) h e k =
      rw (e, forward, k.0, k.1) (ground arith)
  forward-round f m ih zero rs (returned (some ev) rest) h e k = rw (e, forward, k.0) (ground arith)
  forward-round f m ih (suc n) rs (returned (some ev) rest) h e k =
      rw (e, forward, k.0, k.1) (rw (ih n rest (omega arith)) (ground arith))

  pub forward-promised :
      (f taken : ℕ) (m : Option (List GlobPart)) (rs : List (Received V))
      → length rs < f
      → forward f taken m rs ≡ promised taken (delivered m rs) (has_gap rs)
  forward-promised zero taken m rs h = elim h [ ]
  forward-promised (suc f) taken m rs h =
      forward-round f m (λ n rest l. forward-promised f n m rest l) taken rs (recv m rs) h refl
        (recv-Receives m rs)

  -- Whether a subscriber to `pattern` wants a topic.
  abbrev pub wanted : Option Text → BusEvent V → Bool
  wanted none ev = true
  wanted (some pattern) ev = glob_matches pattern ev.topic

  delivered-wanted :
      (pattern : Option Text) (evs : List (BusEvent V))
      → filter (λ ev. matches (subscribe pattern) ev.topic) evs ≡ filter (wanted pattern) evs
  unfolding matches subscribe glob_matches
  delivered-wanted none evs = refl
  delivered-wanted (some pattern) evs = refl

  -- The consumer of a subscription gets the events whose topic the pattern matches, each once, in
  -- the order of publication, from the first on and up to the first overflow or the closing of the
  -- channel, as many as it takes. The thread ends by itself only at such a gap.
  pub drain-promised :
      (taken : ℕ) (pattern : Option Text) (rs : List (Received V))
      → drain taken pattern rs
        ≡ promised taken (filter (wanted pattern) (before_gap rs)) (has_gap rs)
  unfolding drain
  drain-promised taken pattern rs = rw (
    forward-promised (suc (length rs)) taken (subscribe pattern) rs (omega arith),
    delivered-wanted pattern (before_gap rs),
  )
