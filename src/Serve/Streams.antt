-- ===== src/Serve/Streams.antt =====
-- The streams of events of an engine that a reload has replaced: `serve` beside the bodies of
-- src/handler.rs, which look at the engine's token each time they are polled.
use http_nu.Common.{
  ℕ, ◌≤◌, ◌≡◌, refl, sym, subst, Bool, true, false, false≢true, ◌==◌, ==_refl, inl, inr, List, [],
  ◌∷◌, ◌++◌, map, All, any, some, length, Bool-cases, arith,
}
use http_nu.Compression.{Encoder, new_stream}
use http_nu.Compression.Whole.{polls}
use http_nu.Compression.Broken.{Reported}
use http_nu.Handler.Cancel.{
  FromWorker, data_sent, channel_closed, nothing_yet, sse_cancelled, sse_items, plain_poll,
  cancelled, first_end, sse_items-cancelled,
}
use http_nu.Logging.Body.{ready_err}
use http_nu.Serve.{Server, start, Updater, receiving, storing, reporting, Reach}
use http_nu.Serve.Order.{In, Cancelled, Tokens, Reach-Sound}

-- `token.cancelled()` for the stream of an engine.
abbrev pub is_cancelled : ℕ → Server → Bool
is_cancelled e s = any (λ c. c == e) s.cancelled

-- The polls of an engine's stream: where the server stands, and what the receiver would give.
abbrev pub seen_by : ℕ → List (Server × FromWorker) → List (Bool × FromWorker)
seen_by e ps = map (λ (s, r). (is_cancelled e s, r)) ps

abbrev pub is_open : FromWorker → Bool
is_open channel_closed = false
is_open _ = true

In-any : (e : ℕ) (cs : List ℕ) → In e cs → any (λ c. c == e) cs ≡ true
In-any e [] h = absurd h
In-any e (c ∷ cs) (inl q) = rw (q, ==_refl c) refl
In-any e (c ∷ cs) (inr h) = ground (arith, In-any e cs h)

In-Cancelled : (e : ℕ) (cs es : List ℕ) → Cancelled cs es → In e es → In e cs
In-Cancelled e cs [] h i = absurd i
In-Cancelled e cs (c ∷ es) (k, h) (inl q) = subst (λ x. In x cs) (sym q) k
In-Cancelled e cs (c ∷ es) (k, h) (inr i) = In-Cancelled e cs es h i

In-Tokens : (u : Updater) (e new : ℕ) (cs es : List ℕ) → Tokens u cs (new ∷ es) → In e es → In e cs
In-Tokens receiving e new cs es h i = In-Cancelled e cs es h i
In-Tokens (storing n) e new cs es h i = In-Cancelled e cs es h.1 i
In-Tokens reporting e new cs es h i = In-Cancelled e cs es h i

seen_by-cancelled :
    (e : ℕ) (before : List (Server × FromWorker)) (s : Server) (r : FromWorker)
    (after : List (Server × FromWorker))
    → All (λ (p : Server × FromWorker). is_open p.1 ≡ true) before
    → is_cancelled e s ≡ true
    → cancelled (seen_by e (before ++ (s, r) ∷ after)) ≡ true
seen_by-cancelled e [] s r after h k = rw k refl
seen_by-cancelled e ((s', channel_closed) ∷ before) s r after (h, hs) k = absurd (false≢true h)
seen_by-cancelled e ((s', data_sent b) ∷ before) s r after (h, hs) k =
    elim (Bool-cases (is_cancelled e s')) [
      | inl q ↦ rw q refl
      | inr q ↦ rw q (seen_by-cancelled e before s r after hs k)
    ]
seen_by-cancelled e ((s', nothing_yet) ∷ before) s r after (h, hs) k =
    elim (Bool-cases (is_cancelled e s')) [
      | inl q ↦ rw q refl
      | inr q ↦ rw q (seen_by-cancelled e before s r after hs k)
    ]

-- No client stays on the events of a replaced engine: when, however the steps of the server interleave,
-- a stream of events whose channel was open so far is polled while a newer engine than its own is
-- stored, then its body does not end cleanly: the plain one ends with the error "sse cancelled", and
-- the compressed one, polled as often as there are items, with this error or one of the encoder.
pub seen_by-replaced :
    (E : Encoder) (st : E.State) (e new : ℕ) (es : List ℕ)
    (before after : List (Server × FromWorker)) (s : Server) (r : FromWorker) (n : ℕ)
    → Reach start s
    → s.engines ≡ new ∷ es
    → In e es
    → All (λ (p : Server × FromWorker). is_open p.1 ≡ true) before
    → length (sse_items (seen_by e (before ++ (s, r) ∷ after))) ≤ n
    → (first_end (map plain_poll (sse_items (seen_by e (before ++ (s, r) ∷ after))))
        ≡ some (ready_err sse_cancelled))
      × Reported E sse_cancelled
          (polls E n (new_stream E (sse_items (seen_by e (before ++ (s, r) ∷ after))) st)).0
seen_by-replaced E st e new es before after s r n reach q i o l =
    let (k, _) = Reach-Sound s reach in
    let k' : Tokens s.updater s.cancelled (new ∷ es) = subst (Tokens s.updater s.cancelled) q k in
    let gone = In-any e s.cancelled (In-Tokens s.updater e new s.cancelled es k' i) in
    sse_items-cancelled E st (seen_by e (before ++ (s, r) ∷ after)) n
      (seen_by-cancelled e before s r after o gone) l
