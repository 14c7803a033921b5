-- ===== src/Logging/Human/Table.antt =====
-- The table of the requests in flight: the list of their ids, which the zone is drawn from, holds
-- exactly the keys of the map of their states.
use http_nu.Common.{
  ℕ, ◌≡◌, ◌≢◌, refl, sym, ap, ◌∙◌, subst, not, inl, inr, List, [], ◌∷◌, ◌++◌, map, none, some, Text,
  Bytes, Bool-cases, Option-cases, some-injective, lookup, insert, text_eq, text_eq_iff, filter,
  decimal, arith,
}
use http_nu.Logging.Bucket.{try_consume}
use http_nu.Logging.Line.{RequestState, Clock, lit, format_complete_line}
use http_nu.Logging.Zone.{clear, print, print_permanent, print_all, redraw}
use http_nu.Logging.Human.{
  RequestData, Event, request, response, complete, started, reloaded, error, print_event, stopping,
  stopped, stop_timed_out, shutdown, About, Human, redrawn, with_zone, say, started_lines, admitted,
  responded, removed, limited, remove, admit, on_request, on_response, on_complete, handle_event,
}

abbrev pub keys : List (Text × RequestState) → List Text
keys m = map (λ (e : Text × RequestState). e.0) m

abbrev pub Tracked : Human → Type 0
Tracked h = keys h.requests ≡ h.active_ids

-- A request's id is not one that is in flight.
abbrev pub Fresh : Event → Human → Type 0
Fresh (request id r) h = lookup id h.requests ≡ none
Fresh _ h = Unit

some-ne-none : (v : RequestState) → some v ≢ none
some-ne-none v q = grind arith

keys-insert_fresh :
    (k : Text) (v : RequestState) (m : List (Text × RequestState))
    → lookup k m ≡ none
    → keys (insert k v m) ≡ keys m ++ k ∷ []
unfolding lookup insert
keys-insert_fresh k v [] q = refl
keys-insert_fresh k v ((j, w) ∷ m) q = elim (Bool-cases (text_eq j k)) [
  | inl e ↦ absurd (some-ne-none w (rw e at q))
  | inr e ↦ rw e (ap (λ ks. j ∷ ks) (keys-insert_fresh k v m (rw e at q)))
]

keys-insert_known :
    (k : Text) (v w : RequestState) (m : List (Text × RequestState))
    → lookup k m ≡ some w
    → keys (insert k v m) ≡ keys m
unfolding lookup insert
keys-insert_known k v w [] q = absurd (some-ne-none w (sym q))
keys-insert_known k v w ((j, u) ∷ m) q = elim (Bool-cases (text_eq j k)) [
  | inl e ↦ rw e (ap (λ i. i ∷ keys m) (sym ((text_eq_iff j k).0 e)))
  | inr e ↦ rw e (ap (λ ks. j ∷ ks) (keys-insert_known k v w m (rw e at q)))
]

keys-remove :
    (k : Text) (m : List (Text × RequestState))
    → keys (remove k m) ≡ filter (λ x. not (text_eq x k)) (keys m)
keys-remove k [] = refl
keys-remove k ((j, w) ∷ m) = elim (Bool-cases (text_eq j k)) [
  | inl e ↦ rw e (keys-remove k m)
  | inr e ↦ rw e (ap (λ ks. j ∷ ks) (keys-remove k m))
]

redrawn-Tracked : (c : Clock) (h h' : Human) → Tracked h → redrawn c h ≡ some h' → Tracked h'
redrawn-Tracked c h h' t q = elim (Option-cases (redraw c h.active_ids h.requests h.zone)) [
  | inl p ↦ ground (arith, q, p)
  | inr (z, p) ↦ subst Tracked (some-injective (rw p at q)) t
]

say-Tracked :
    (c : Clock) (line : Bytes) (h h' : Human) → Tracked h → say c line h ≡ some h' → Tracked h'
say-Tracked c line h h' t q = redrawn-Tracked c (with_zone (print_permanent line h.zone) h) h' t q

module _ (c : Clock) (h h' : Human) (t : Tracked h) where
  request-Tracked :
      (id : Text) (r : RequestData)
      → lookup id h.requests ≡ none
      → on_request c id r h ≡ some h'
      → Tracked h'
  unfolding on_request admit
  request-Tracked id r new q = elim (Bool-cases (try_consume h.rate_limiter c.now).1) [
    | inl e ↦
        redrawn-Tracked c (admitted c id r (limited c h)) h'
          (keys-insert_fresh id _ h.requests new ∙ ap (λ ks. ks ++ id ∷ []) t) (rw e at q)
    | inr e ↦ subst Tracked (some-injective (rw e at q)) t
  ]

  response-Tracked :
      (id : Text) (status latency : ℕ)
      → on_response c id status latency (lookup id h.requests) h ≡ some h'
      → Tracked h'
  unfolding on_response
  response-Tracked id status latency q = elim (Option-cases (lookup id h.requests)) [
    | inl m ↦ subst Tracked (some-injective (rw m at q)) t
    | inr (st, m) ↦
        redrawn-Tracked c (responded id status latency st h) h'
          (keys-insert_known id _ st h.requests m ∙ t) (rw m at q)
  ]

  complete-Tracked :
      (id : Text) (bytes duration : ℕ)
      → on_complete c id bytes duration (lookup id h.requests) h ≡ some h'
      → Tracked h'
  unfolding on_complete
  complete-Tracked id bytes duration q = elim (Option-cases (lookup id h.requests)) [
    | inl m ↦ subst Tracked (some-injective (rw m at q)) t
    | inr (st, m) ↦ elim (Option-cases (format_complete_line c st duration bytes)) [
      | inl p ↦ ground (arith, p, rw m at q)
      | inr (l, p) ↦
          redrawn-Tracked c (removed id l h) h'
            (keys-remove id h.requests ∙ ap (filter (λ x. not (text_eq x id))) t) (rw (m, p) at q)
    ]
  ]

-- The ids that the zone is drawn from stay exactly the keys of the table of the requests in flight,
-- in the same order, whatever the event, when a new request's id is not already in flight and the
-- event does not panic.
pub handle_event-Tracked :
    (a : About) (c : Clock) (e : Event) (h h' : Human)
    → Tracked h
    → Fresh e h
    → handle_event a c e h ≡ some h'
    → Tracked h'
unfolding handle_event
handle_event-Tracked a c (started address ms o) h h' t f q =
    redrawn-Tracked c (with_zone (print_all (started_lines a address ms o) h.zone) h) h' t q
handle_event-Tracked a c reloaded h h' t f q = say-Tracked c (lit "reloaded 🔄") h h' t q
handle_event-Tracked a c (error e) h h' t f q =
    redrawn-Tracked c (with_zone (print (lit "ERROR: " ++ e) (clear h.zone)) h) h' t q
handle_event-Tracked a c (print_event m) h h' t f q = say-Tracked c (lit "PRINT: " ++ m) h h' t q
handle_event-Tracked a c (stopping n) h h' t f q =
    say-Tracked c (lit "stopping, " ++ decimal n ++ lit " connection(s) in flight...") h h' t q
handle_event-Tracked a c stopped h h' t f q = subst Tracked (some-injective q) t
handle_event-Tracked a c stop_timed_out h h' t f q = subst Tracked (some-injective q) t
handle_event-Tracked a c shutdown h h' t f q = subst Tracked (some-injective q) t
handle_event-Tracked a c (request id r) h h' t f q = request-Tracked c h h' t id r f q
handle_event-Tracked a c (response id status headers latency) h h' t f q =
    response-Tracked c h h' t id status latency q
handle_event-Tracked a c (complete id bytes duration) h h' t f q =
    complete-Tracked c h h' t id bytes duration q
