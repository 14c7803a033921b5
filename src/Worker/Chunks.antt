-- ===== src/Worker/Chunks.antt =====
-- The chunks of a streamed body.
use http_nu.Common.{
  ℕ, zero, suc, ◌≡◌, refl, ap, ◌∙◌, Bool, true, false, List, [], ◌∷◌, Text, Bytes, Option, none,
  some, take, length, ltb, if◌then◌else◌, arith,
}
use http_nu.Value.{Value, error}
use http_nu.Response.{Printer}
use http_nu.Worker.{
  PipelineResult, answered, Outcome, finished, panicked, Run, send_chunk, value_bytes,
  stream_values,
}

-- What the values of a stream lead to when the receiver takes all: they end, an error value is reached, or one that has
-- no bytes.
pub data Stop : Type 0 where
  all_sent : Stop
  error_reached : Text → Stop
  unprintable : Stop

abbrev stop_logged : Stop → List Text
stop_logged all_sent = []
stop_logged (error_reached e) = e ∷ []
stop_logged unprintable = []

abbrev stop_outcome : Stop → Outcome
stop_outcome all_sent = finished
stop_outcome (error_reached e) = finished
stop_outcome unprintable = panicked

abbrev sent_before : Option Bytes → List Bytes → List Bytes
sent_before none bs = []
sent_before (some b) bs = b ∷ bs

abbrev stop_behind : Option Bytes → Stop → Stop
stop_behind none s = unprintable
stop_behind (some b) s = s

ltb-suc : (m n : ℕ) → ltb m n ≡ ltb (suc m) (suc n)
ltb-suc m n = ground arith

ltb_of_none : (n : ℕ) → ltb (suc n) 0 ≡ false
ltb_of_none n = ground arith

none_ltb : (n : ℕ) → ltb 0 (suc n) ≡ true
none_ltb n = ground arith

module _ (p : Printer) where
  -- The bytes of the values in order, in the mode of the stream, and why they end.
  abbrev pub sent : Bool → List Value → List Bytes
  sent j [] = []
  sent j (error e ∷ vs) = []
  sent j (v ∷ vs) = sent_before (value_bytes p j v) (sent j vs)

  abbrev pub stop : Bool → List Value → Stop
  stop j [] = all_sent
  stop j (error e ∷ vs) = error_reached e
  stop j (v ∷ vs) = stop_behind (value_bytes p j v) (stop j vs)

  abbrev Ends : ℕ → List Bytes → Stop → Run → Type 0
  Ends taken bs s r =
      (r.chunks ≡ take taken bs)
      × (r.logged ≡ (if ltb taken (length bs) then [] else stop_logged s))
      × (r.outcome ≡ (if ltb taken (length bs) then finished else stop_outcome s))

  abbrev pub Streams : ℕ → Bool → List Value → Run → Type 0
  Streams taken j vs r = Ends taken (sent j vs) (stop j vs) r

  nothing_sent :
      (taken : ℕ) (s : Stop) (r : Run)
      → r.chunks ≡ []
      → r.logged ≡ stop_logged s
      → r.outcome ≡ stop_outcome s
      → Ends taken [] s r
  nothing_sent zero s r c l o = (c, l, o)
  nothing_sent (suc n) s r c l o = rw (ltb_of_none n) (c, l, o)

  send_chunk-Ends :
      (taken : ℕ) (r : PipelineResult) (o : Option Bytes) (bs : List Bytes) (s : Stop)
      (rest : ℕ → Run)
      → ((n : ℕ) → Ends n bs s (rest n))
      → Ends taken (sent_before o bs) (stop_behind o s) (send_chunk taken r o rest)
  send_chunk-Ends taken r none bs s rest h =
      nothing_sent taken unprintable (record (answered r) { outcome = panicked }) refl refl refl
  send_chunk-Ends zero r (some b) bs s rest h = rw (none_ltb (length bs)) (refl, refl, refl)
  send_chunk-Ends (suc m) r (some b) bs s rest h = (
    ap (◌∷◌ b) (h m).0,
    (h m).1 ∙ ap (λ c. if c then [] else stop_logged s) (ltb-suc m (length bs)),
    (h m).2 ∙ ap (λ c. if c then finished else stop_outcome s) (ltb-suc m (length bs)),
  )

  -- A streamed list sends the bytes of its values in order, each one once, up to the first value that is an error or
  -- has no bytes, or until the receiver is gone. When the receiver takes all of these, then an error value that is
  -- reached is logged and ends the stream, a value without bytes ends it by a panic and logs nothing here, and
  -- otherwise the stream finishes with nothing logged. When the receiver is gone before, it finishes and logs nothing.
  pub stream_values-Streams :
      (taken : ℕ) (r : PipelineResult) (j : Bool) (vs : List Value)
      → Streams taken j vs (stream_values p taken r j vs)
  unfolding stream_values
  stream_values-Streams taken r j [] = nothing_sent taken all_sent (answered r) refl refl refl
  stream_values-Streams taken r j (error e ∷ vs) =
      nothing_sent taken (error_reached e) (record (answered r) { logged = e ∷ [] }) refl refl refl
  stream_values-Streams taken r j (v ∷ vs) =
      send_chunk-Ends taken r (value_bytes p j v) (sent j vs) (stop j vs) _
        (λ n. stream_values-Streams n r j vs)
